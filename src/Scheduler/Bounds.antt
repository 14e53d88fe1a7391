-- ===== src/Scheduler/Bounds.antt =====
-- The bounds on the scheduler's statics: the quantum, the boost budget and the cursor.
use quantum_os.Prelude.{
  ℕ, ◌≤◌, ◌<◌, true, some, ◌≡◌, inl, inr, arith, ap, sym, Bool-cases, Option-cases, subst,
}
use quantum_os.Manifest.Table.{max_processes}
use quantum_os.Process.{Processes}
use quantum_os.Scheduler.{Scheduler}
use quantum_os.Scheduler.Pick.{boost_max_consec, is_runnable, pick_next, pick_commit, counted_pick}
use quantum_os.Scheduler.Pick.Choice.{
  boost_candidate, pick_next-some, pick_next-boosted, pick_next-plain, pick_next-total,
}
use quantum_os.Scheduler.Dispatch.{
  Machine, switch_in, quantum_reset, save_current, scheduler_reschedule, scheduler_kill_current,
  from_current,
}
use quantum_os.Scheduler.Dispatch.Switch.{stays, switches, reschedule_cases}
use quantum_os.Scheduler.Dispatch.Running.{kill_dispatch}
use quantum_os.Scheduler.Interrupts.{quantum_ticks}

pub record IsBounded (s : Scheduler) : Type 0 where
  pub quantum : s.quantum_counter < quantum_ticks
  pub budget : s.consec_boost ≤ boost_max_consec
  pub cursor : s.rr_cursor < max_processes

-- The bounds but that of the quantum, once a pick was made: a boosted pick had budget left.
record CanCommit (s : Scheduler) : Type 0 where
  quantum : s.quantum_counter < quantum_ticks
  budget : s.consec_boost ≤ boost_max_consec
  cursor : s.rr_cursor < max_processes
  lasts : s.pick_was_boost ≡ true → s.consec_boost < boost_max_consec

pick_next-CanCommit :
    (from : ℕ) (ps : Processes) (s : Scheduler) → IsBounded s → CanCommit (pick_next from ps s).1
pick_next-CanCommit from ps s b = elim (Option-cases (boost_candidate from ps s)) [
  | inl plain ↦ subst CanCommit (sym (ap (λ r. r.1) (pick_next-plain from ps s plain))) (record {
    quantum = b.quantum;
    budget = b.budget;
    cursor = b.cursor;
    lasts = λ e. absurd (ground (arith, e));
  })
  | inr (pid, boosted) ↦
      let lasts : s.consec_boost < boost_max_consec = ground (arith, boosted) in
      subst CanCommit (sym (ap (λ r. r.1) (pick_next-boosted from ps s boosted)))
        (record { quantum = b.quantum; budget = b.budget; cursor = b.cursor; lasts = λ e. lasts })
]

CanCommit-IsBounded : (s : Scheduler) → CanCommit s → IsBounded s
CanCommit-IsBounded s c = record { quantum = c.quantum; budget = c.budget; cursor = c.cursor }

counted_pick-IsBounded :
    (pid : ℕ) (s : Scheduler) → pid < max_processes → CanCommit s → IsBounded (counted_pick pid s)
counted_pick-IsBounded pid s below c = elim (Bool-cases s.pick_was_boost) [
  | inl boosted ↦
      let lasts = c.lasts boosted in
      rw boosted (record { quantum = c.quantum; budget = omega (arith, lasts); cursor = c.cursor })
  | inr plain ↦ rw plain (record { quantum = c.quantum; budget = omega arith; cursor = below })
]

switch_in-IsBounded :
    (now kernel_cr3 pid : ℕ) (m : Machine)
    → pid < max_processes
    → CanCommit m.scheduler
    → IsBounded (switch_in now kernel_cr3 pid m).scheduler
unfolding switch_in pick_commit
switch_in-IsBounded now kernel_cr3 pid m below c =
    let b = counted_pick-IsBounded pid m.scheduler below c in
    record { quantum = b.quantum; budget = b.budget; cursor = b.cursor }

reset-IsBounded :
    (m : Machine)
    → m.scheduler.consec_boost ≤ boost_max_consec
    → m.scheduler.rr_cursor < max_processes
    → IsBounded (quantum_reset m).scheduler
reset-IsBounded m budget cursor = record { quantum = omega arith; budget = budget; cursor = cursor }

-- Only the budget and the cursor need hold before, since the quantum starts anew.
pub reschedule-IsBounded :
    (now kernel_cr3 cur : ℕ) (m : Machine)
    → m.processes.current ≡ some cur
    → m.scheduler.consec_boost ≤ boost_max_consec
    → m.scheduler.rr_cursor < max_processes
    → IsBounded (scheduler_reschedule now kernel_cr3 m).scheduler
reschedule-IsBounded now kernel_cr3 cur m here budget cursor =
    let c =
      pick_next-CanCommit cur m.processes (quantum_reset m).scheduler
        (reset-IsBounded m budget cursor) in
    elim (reschedule_cases now kernel_cr3 cur m here) [
      | stays is ↦
          subst (λ (t : Machine). IsBounded t.scheduler) (sym is)
            (CanCommit-IsBounded (pick_next cur m.processes (quantum_reset m).scheduler).1 c)
      | switches pid picked other is ↦
          let (_, below) = pick_next-some cur m.processes (quantum_reset m).scheduler picked in
          subst (λ (t : Machine). IsBounded t.scheduler) (sym is)
            (switch_in-IsBounded now kernel_cr3 pid
              (record m {
                processes = save_current cur m.frame m.processes;
                scheduler = (pick_next cur m.processes (quantum_reset m).scheduler).1;
              })
              below c)
    ]

-- With something to run, the switch away from a dead process succeeds, within the bounds.
pub kill_current-IsBounded :
    (now kernel_cr3 x : ℕ) (m : Machine)
    → x < max_processes
    → is_runnable m.processes x ≡ true
    → IsBounded m.scheduler
    → (t : Machine) × (scheduler_kill_current now kernel_cr3 m ≡ some t) × IsBounded t.scheduler
kill_current-IsBounded now kernel_cr3 x m below can b =
    let from = from_current m.processes.current in
    let (pid, picked) = pick_next-total from m.processes m.scheduler x below can in
    let (_, fits) = pick_next-some from m.processes m.scheduler picked in
    let c = pick_next-CanCommit from m.processes m.scheduler b in
    let mid = quantum_reset (record m { scheduler = (pick_next from m.processes m.scheduler).1 }) in
    let ready_to : CanCommit mid.scheduler = record {
      quantum = omega arith;
      budget = c.budget;
      cursor = c.cursor;
      lasts = c.lasts;
    } in
    (
      switch_in now kernel_cr3 pid mid,
      kill_dispatch now kernel_cr3 m (some pid) picked,
      switch_in-IsBounded now kernel_cr3 pid mid fits ready_to,
    )

pub look-IsBounded :
    (from : ℕ) (ps : Processes) (s : Scheduler) → IsBounded s → IsBounded (pick_next from ps s).1
look-IsBounded from ps s b =
    CanCommit-IsBounded (pick_next from ps s).1 (pick_next-CanCommit from ps s b)
