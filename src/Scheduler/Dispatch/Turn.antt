-- ===== src/Scheduler/Dispatch/Turn.antt =====
-- A process that stays ready gets its turn: at each `scheduler_reschedule` it is dispatched, or the
-- bound on the dispatches before it shrinks.
use quantum_os.Prelude.{
  ℕ, zero, suc, ◌+◌, ◌≤◌, ◌<◌, true, false, Option, none, some, ◌≡◌, refl, ◌⊎◌, inl, inr, arith, ap,
  ◌∙◌, ◌≢◌, Bool-cases, ◌==◌,
}
use quantum_os.Manifest.Table.{max_processes}
use quantum_os.Process.{Processes, process_get_by_pid, process_is_valid}
use quantum_os.Process.ProcessState.{running}
use quantum_os.Process.Queue.{points_to}
use quantum_os.Scheduler.Pick.{boost_max_consec, is_runnable, pick_next, pick_commit}
use quantum_os.Scheduler.Pick.Order.{is_work, places_to_lem}
use quantum_os.Scheduler.Pick.Fair.{picks_left, committed, pick-progress}
use quantum_os.Scheduler.Dispatch.{
  Machine, save_current, switch_in, quantum_reset, scheduler_reschedule,
}
use quantum_os.Scheduler.Dispatch.Switch.{
  reschedule-switches, picked-valid, switched, switch_in-OnlyAt,
}

-- `x` can run, and is not the idle process; a process that runs is current, so not itself ready.
pub record Waits (x : ℕ) (m : Machine) : Type 0 where
  pub holder : ℕ
  pub is_current : m.processes.current ≡ some holder
  pub holder_valid : process_is_valid holder m.processes ≡ true
  pub holder_runs : (m.processes.table holder).state ≡ running
  pub can_run : is_work m.processes x ≡ true

pub points_to-some : (o : Option ℕ) (x : ℕ) → points_to o x ≡ true → o ≡ some x
points_to-some none x h = absurd (ground (arith, h))
points_to-some (some k) x h = ap (λ j. some j) (ground (arith, h))

pub runnable-valid :
    (ps : Processes) (pid : ℕ) → is_runnable ps pid ≡ true → process_is_valid pid ps ≡ true
unfolding is_runnable process_get_by_pid
runnable-valid ps pid h = ground (arith, h)

pub running-not-runnable :
    (ps : Processes) (pid : ℕ) → (ps.table pid).state ≡ running → is_runnable ps pid ≡ false
unfolding is_runnable process_get_by_pid
running-not-runnable ps pid h = ground (arith, h)

switched-cursor :
    (now kernel_cr3 cur pid : ℕ) (m : Machine)
    → let t = (switched now kernel_cr3 cur pid m).scheduler in
      let c = committed cur m.processes (quantum_reset m).scheduler pid in
      (t.rr_cursor ≡ c.rr_cursor) × (t.consec_boost ≡ c.consec_boost)
unfolding switch_in pick_commit
switched-cursor now kernel_cr3 cur pid m = (refl, refl)

pub switched-current :
    (now kernel_cr3 cur pid : ℕ) (m : Machine)
    → process_is_valid cur m.processes ≡ true
    → (m.processes.table cur).state ≡ running
    → is_runnable m.processes pid ≡ true
    → pid ≢ cur
    → (switched now kernel_cr3 cur pid m).processes.current ≡ some pid
switched-current now kernel_cr3 cur pid m valid runs can other =
    let still = picked-valid cur pid m valid runs (runnable-valid m.processes pid can) other in
    (switch_in-OnlyAt now kernel_cr3 pid
      (record m {
        processes = save_current cur m.frame m.processes;
        scheduler = (pick_next cur m.processes (quantum_reset m).scheduler).1;
      })
      still).0

-- The dispatch is of `x`, or brings its turn nearer, and the boost budget is kept.
abbrev pub Nearer : ℕ → Machine → Machine → Type 0
Nearer x m t =
    (t.scheduler.consec_boost ≤ boost_max_consec)
    × ((t.processes.current ≡ some x) ⊎ (picks_left x t.scheduler < picks_left x m.scheduler))

pub reschedule-Nearer :
    (now kernel_cr3 x : ℕ) (m : Machine)
    → x < max_processes
    → m.scheduler.consec_boost ≤ boost_max_consec
    → Waits x m
    → Nearer x m (scheduler_reschedule now kernel_cr3 m)
reschedule-Nearer now kernel_cr3 x m below budget w =
    let cur = w.holder in
    let (pid, picked, work, kept, turn) =
      pick-progress cur m.processes (quantum_reset m).scheduler x below w.can_run budget in
    let can : is_runnable m.processes pid ≡ true = ground (arith, work) in
    let other : pid ≢ cur = λ e. ground (
      arith,
      running-not-runnable m.processes cur w.holder_runs,
      ap (is_runnable m.processes) e,
      can,
    ) in
    let there = switched-current now kernel_cr3 cur pid m w.holder_valid w.holder_runs can other in
    let (cursor, spent) = switched-cursor now kernel_cr3 cur pid m in
    let all : Nearer x m (switched now kernel_cr3 cur pid m) = (
      omega (arith, kept, spent),
      elim turn [
        | inl same ↦ inl (there ∙ ap (λ k. some k) same)
        | inr less ↦ inr (rw (cursor, spent) less)
      ],
    ) in
    rw (reschedule-switches now kernel_cr3 cur pid m w.is_current picked other) all

module _ (kernel_cr3 x : ℕ) (now : ℕ → ℕ) (run : ℕ → Machine) where
  -- The machine as the call numbered `k` leaves it.
  abbrev pub dispatched : ℕ → Machine
  dispatched k = scheduler_reschedule (now k) kernel_cr3 (run k)

  -- `x` has had no turn before the call numbered `k`.
  abbrev pub NoTurnBefore : ℕ → Type 0
  NoTurnBefore k = (i : ℕ) → i < k → (dispatched i).processes.current ≢ some x

  module _ (below : x < max_processes) (waits : (k : ℕ) → NoTurnBefore k → Waits x (run k))
      (cursor : (k : ℕ) → (run (suc k)).scheduler.rr_cursor ≡ (dispatched k).scheduler.rr_cursor)
      (budget : (k : ℕ)
        → (run (suc k)).scheduler.consec_boost ≡ (dispatched k).scheduler.consec_boost) where
    turn_within :
        (n k : ℕ)
        → (run k).scheduler.consec_boost ≤ boost_max_consec
        → picks_left x (run k).scheduler ≤ n
        → NoTurnBefore k
        → (j : ℕ) × (j < k + n) × ((dispatched j).processes.current ≡ some x)
    turn_within zero k kept bound before =
        absurd (omega (arith, places_to_lem (run k).scheduler.rr_cursor x below))
    turn_within (suc n) k kept bound before =
        let (kept', step) =
          reschedule-Nearer (now k) kernel_cr3 x (run k) below kept (waits k before) in
        elim (Bool-cases (points_to (dispatched k).processes.current x)) [
          | inl turn ↦ (k, omega arith, points_to-some (dispatched k).processes.current x turn)
          | inr other ↦
              let ne : (dispatched k).processes.current ≢ some x = λ e. ground (arith, other, e) in
              let less : picks_left x (dispatched k).scheduler < picks_left x (run k).scheduler =
                elim step [ inl turn ↦ absurd (ne turn) | inr less ↦ less ] in
              let (j, early, turn) =
                turn_within n (suc k) (omega (arith, kept', budget k))
                  (rw (cursor k, budget k) (omega (arith, less)))
                  (λ i h. elim (Bool-cases (i == k)) [
                    | inl same ↦ let e : i ≡ k = ground (arith, same) in rw e ne
                    | inr earlier ↦ before i (ground (arith, h, earlier))
                  ]) in
              (j, omega (arith, early), turn)
        ]

    -- Whatever else changes in the process table from one call of `scheduler_reschedule` to the
    -- next, one of the first 768 calls dispatches `x`, if, as long as none has, `x` is a process other
    -- than the idle one that can run at each call, the process interrupted is valid and in the
    -- running state, and no other call moves the cursor or the boost budget.
    pub turn_comes :
        (run 0).scheduler.consec_boost ≤ boost_max_consec
        → (j : ℕ) × (j < 768) × ((dispatched j).processes.current ≡ some x)
    turn_comes kept =
        turn_within 768 0 kept (omega (arith, places_to_lem (run 0).scheduler.rr_cursor x below))
          (λ i h. absurd (omega (arith, h)))
