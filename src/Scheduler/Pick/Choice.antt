-- ===== src/Scheduler/Pick/Choice.antt =====
-- The process that `pick_next` picks, against its description, and that one is picked when one can run.
use quantum_os.Prelude.{
  ℕ, ◌<◌, Bool, true, false, Option, none, some, ltb, ◌==◌, if◌then◌else◌, ◌≡◌, ◌⊎◌, inl, inr,
  Bool-cases, Option-cases, arith, ap, ap₂, ◌∙◌, sym,
}
use quantum_os.Manifest.Table.{max_processes}
use quantum_os.Process.{Processes}
use quantum_os.Scheduler.{Scheduler}
use quantum_os.Scheduler.Pick.{
  idle_process_id, boost_max_consec, is_runnable, is_boosted, pid_after, boost_scan, plain_scan,
  pick_next,
}
use quantum_os.Scheduler.Pick.Order.{
  is_work, rotation, or_next, rotation-some, rotation-reaches, idle_pick, plain_scan_lem,
}

abbrev pub boost_candidate : ℕ → Processes → Scheduler → Option ℕ
boost_candidate from ps s =
    if ltb s.consec_boost boost_max_consec
    then rotation (is_boosted ps) max_processes 1 from
    else none

-- The pick is the first flagged process after `from`, while the boost budget lasts; else the first
-- runnable process after the cursor that is not idle; else the idle process, if that can run.
pub pick_next-reference :
    (from : ℕ) (ps : Processes) (s : Scheduler)
    → (pick_next from ps s).0
      ≡ or_next
          (boost_candidate from ps s)
          (or_next (rotation (is_work ps) max_processes 1 s.rr_cursor) (idle_pick ps))
unfolding pick_next boost_scan
pick_next-reference from ps s =
    ground (arith, plain_scan_lem s.rr_cursor ps, Bool-cases (ltb s.consec_boost boost_max_consec))

pub boosted-runnable : (ps : Processes) (pid : ℕ) → is_boosted ps pid ≡ true → is_work ps pid ≡ true
unfolding is_boosted
boosted-runnable ps pid h = ground (arith, h)

or_next_cases :
    (a b : Option ℕ) {pid : ℕ} → or_next a b ≡ some pid → (a ≡ some pid) ⊎ (b ≡ some pid)
or_next_cases none b e = inr e
or_next_cases (some k) b e = inl e

rotation-passes :
    (test : ℕ → Bool) (n off cursor : ℕ) {pid : ℕ}
    → rotation test n off cursor ≡ some pid
    → (test pid ≡ true) × (pid < max_processes)
rotation-passes test n off cursor found =
    let (k, _, _, at, hit) = rotation-some test n off cursor found in (hit, omega (arith, at))

pub boost_candidate-some :
    (from : ℕ) (ps : Processes) (s : Scheduler) {pid : ℕ}
    → boost_candidate from ps s ≡ some pid
    → (is_work ps pid ≡ true) × (pid < max_processes)
boost_candidate-some from ps s {pid} e = elim (Bool-cases (ltb s.consec_boost boost_max_consec)) [
  | inl lasts ↦
      let (hit, below) = rotation-passes (is_boosted ps) max_processes 1 from (rw lasts at e) in
      (boosted-runnable ps pid hit, below)
  | inr spent ↦ absurd (ground (arith, spent, e))
]

idle_pick-some :
    (ps : Processes) {pid : ℕ}
    → idle_pick ps ≡ some pid
    → (pid ≡ idle_process_id) × (is_runnable ps idle_process_id ≡ true)
idle_pick-some ps {pid} e = ground (arith, e)

-- A process picked is runnable; it is either work or the idle process.
pub pick_next-some :
    (from : ℕ) (ps : Processes) (s : Scheduler) {pid : ℕ}
    → (pick_next from ps s).0 ≡ some pid
    → (is_runnable ps pid ≡ true) × (pid < max_processes)
pick_next-some from ps s {pid} e =
    elim (or_next_cases (boost_candidate from ps s) _ (sym (pick_next-reference from ps s) ∙ e)) [
      | inl boosted ↦ ground (arith, boost_candidate-some from ps s boosted)
      | inr plain ↦
          elim (or_next_cases (rotation (is_work ps) max_processes 1 s.rr_cursor) _ plain) [
            | inl work ↦
                ground (arith, rotation-passes (is_work ps) max_processes 1 s.rr_cursor work)
            | inr idle ↦
                let (is_idle, can) = idle_pick-some ps idle in
                (rw is_idle can, omega (arith, is_idle))
          ]
    ]

-- While some process other than the idle one can run, such a process is picked.
pub pick_next-work :
    (from : ℕ) (ps : Processes) (s : Scheduler) (x : ℕ)
    → x < max_processes
    → is_work ps x ≡ true
    → (pid : ℕ) × ((pick_next from ps s).0 ≡ some pid)
      × (is_work ps pid ≡ true)
      × (pid < max_processes)
pick_next-work from ps s x below work = elim (Option-cases (boost_candidate from ps s)) [
  | inr (pid, boosted) ↦
      let (hit, b) = boost_candidate-some from ps s boosted in
      (
        pid,
        pick_next-reference from ps s
            ∙ ap
                (λ o.
                  or_next o
                    (or_next (rotation (is_work ps) max_processes 1 s.rr_cursor) (idle_pick ps)))
                boosted,
        hit,
        b,
      )
  | inl plain ↦
      let (k, found, _, _, hit) = rotation-reaches (is_work ps) s.rr_cursor x below work in
      (
        pid_after s.rr_cursor k,
        pick_next-reference from ps s
            ∙ ap₂ (λ o q. or_next o (or_next q (idle_pick ps))) plain found,
        hit,
        omega arith,
      )
]

pub pick_next-boosted :
    (from : ℕ) (ps : Processes) (s : Scheduler) {pid : ℕ}
    → boost_candidate from ps s ≡ some pid
    → pick_next from ps s ≡ (some pid, record s { pick_was_boost = true })
unfolding pick_next boost_scan
pick_next-boosted from ps s e = ground (arith, e, Bool-cases (ltb s.consec_boost boost_max_consec))

pub pick_next-plain :
    (from : ℕ) (ps : Processes) (s : Scheduler)
    → boost_candidate from ps s ≡ none
    → pick_next from ps s
      ≡ (plain_scan max_processes 1 none s.rr_cursor ps, record s { pick_was_boost = false })
unfolding pick_next boost_scan
pick_next-plain from ps s e = ground (arith, e, Bool-cases (ltb s.consec_boost boost_max_consec))

idle_pick-can :
    (ps : Processes) → is_runnable ps idle_process_id ≡ true → idle_pick ps ≡ some idle_process_id
idle_pick-can ps can = ground (arith, can)

or_next-none : (a b : Option ℕ) → or_next a b ≡ none → b ≡ none
or_next-none none b e = e
or_next-none (some k) b e = absurd (ground (arith, e))

-- While any process can run, the idle one included, something is picked.
pub pick_next-total :
    (from : ℕ) (ps : Processes) (s : Scheduler) (x : ℕ)
    → x < max_processes
    → is_runnable ps x ≡ true
    → (pid : ℕ) × ((pick_next from ps s).0 ≡ some pid)
pick_next-total from ps s x below can = elim (Bool-cases (x == idle_process_id)) [
  | inr other ↦
      let work : is_work ps x ≡ true = ground (arith, can, other) in
      let (pid, picked, _, _) = pick_next-work from ps s x below work in (pid, picked)
  | inl same ↦
      let e : x ≡ idle_process_id = ground (arith, same) in
      let idle = idle_pick-can ps (rw e at can) in
      elim (Option-cases (pick_next from ps s).0) [
        | inr picked ↦ picked
        | inl missed ↦
            let empty =
              or_next-none (boost_candidate from ps s) _
                (sym (pick_next-reference from ps s) ∙ missed) in
            let none_idle =
              or_next-none (rotation (is_work ps) max_processes 1 s.rr_cursor) _ empty in
            absurd (ground (arith, idle, none_idle))
      ]
]
