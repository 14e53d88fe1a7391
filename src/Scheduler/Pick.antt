-- ===== src/Scheduler/Pick.antt =====
-- scheduler.c: `pick_next`, the boost scan and the plain scan, and `pick_commit`.
use quantum_os.Prelude.{
  ℕ, zero, suc, ◌+◌, ◌%◌, ◌^◌, Bool, true, false, not, ◌&&◌, Option, none, some, ltb, ◌==◌,
  if◌then◌else◌, find_first,
}
use quantum_os.Manifest.Table.{max_processes}
use quantum_os.Process.{Process, Processes, process_get_by_pid, is_ready}
use quantum_os.Process.Queue.{store}
use quantum_os.Scheduler.{Scheduler}
pub mod Order
pub mod Choice
pub mod Fair

-- IDLE_PROCESS_ID and SCHED_BOOST_MAX_CONSEC
abbrev pub idle_process_id : ℕ
idle_process_id = 1

abbrev pub boost_max_consec : ℕ
boost_max_consec = 2

abbrev pub can_run : Option Process → Bool
can_run none = false
can_run (some p) = is_ready p.state && p.context_valid

abbrev wants_boost : Option Process → Bool
wants_boost none = false
wants_boost (some p) = p.io_boost

-- Ready, with a context to resume.
unfoldable pub is_runnable : Processes → ℕ → Bool
is_runnable ps pid = can_run (process_get_by_pid pid ps)

-- What the boost scan returns: runnable, flagged, and not the idle process.
unfoldable pub is_boosted : Processes → ℕ → Bool
is_boosted ps pid =
    is_runnable ps pid && (wants_boost (process_get_by_pid pid ps) && not (pid == idle_process_id))

-- The pid that a scan looks at, `off` places after `from`.
abbrev pub pid_after : ℕ → ℕ → ℕ
pid_after from off = (from + off) % max_processes

-- The boost scan, which `from` seeds.
unfoldable pub boost_scan : ℕ → Processes → Option ℕ
boost_scan from ps = elim (find_first max_processes 1 (λ off. is_boosted ps (pid_after from off))) [
  | none ↦ none
  | some off ↦ some (pid_after from off)
]

-- The plain scan: the rounds left, the offset, and the idle process if it was passed.
unfoldable pub plain_scan : ℕ → ℕ → Option ℕ → ℕ → Processes → Option ℕ
plain_scan zero off idle cursor ps = idle
plain_scan (suc n) off idle cursor ps =
    let pid = pid_after cursor off in
    let rest = plain_scan n (off + 1) idle cursor ps in
    let rest_idle = plain_scan n (off + 1) (some pid) cursor ps in
    if not (is_runnable ps pid)
    then rest
    else (if pid == idle_process_id then rest_idle else some pid)

-- The pick, and the statics with `pick_was_boost` written.
unfoldable pub pick_next : ℕ → Processes → Scheduler → Option ℕ × Scheduler
pick_next from ps s =
    let plain : Option ℕ × Scheduler =
      (plain_scan max_processes 1 none s.rr_cursor ps, record s { pick_was_boost = false }) in
    if ltb s.consec_boost boost_max_consec
    then (elim (boost_scan from ps) [
      | some pid ↦ (some pid, record s { pick_was_boost = true })
      | none ↦ plain
    ])
    else plain

abbrev pub counted_pick : ℕ → Scheduler → Scheduler
counted_pick next s =
    if s.pick_was_boost
    then record s {
      boost_count = (s.boost_count + 1) % 2 ^ 64;
      consec_boost = (s.consec_boost + 1) % 2 ^ 32;
    }
    else record s { consec_boost = 0; rr_cursor = next }

unfoldable pub pick_commit : ℕ → Processes → Scheduler → Processes × Scheduler
pick_commit next ps s = (store next (λ p. record p { io_boost = false }) ps, counted_pick next s)
