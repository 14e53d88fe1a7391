-- ===== src/Scheduler/Interrupts/Alive.antt =====
-- A timer tick on a sound scheduler has a result, which is sound.
use quantum_os.Prelude.{
  ℕ, ◌<◌, Bool, true, false, ◌&&◌, ◌==◌, ◌≡◌, ◌≢◌, inl, inr, arith, ap, ◌∙◌, sym, Bool-cases,
  Option-cases, subst,
}
use quantum_os.Manifest.Table.{max_processes, manifest_over_budget}
use quantum_os.Manifest.Quota.{manifest_tick}
use quantum_os.Process.{
  Process, Processes, is_ready, is_executing, process_is_valid, process_get_by_pid,
}
use quantum_os.Process.ProcessState.{terminated}
use quantum_os.Process.Queue.{store}
use quantum_os.Process.Essence.{Alike, set_state-Alike, store_self, store-other, valid_entry}
use quantum_os.Scheduler.Pick.{is_runnable, pick_next}
use quantum_os.Scheduler.Pick.Choice.{pick_next-some}
use quantum_os.Scheduler.Bounds.{kill_current-IsBounded, look-IsBounded}
use quantum_os.Scheduler.Dispatch.{Machine}
use quantum_os.Scheduler.Dispatch.Turn.{running-not-runnable}
use quantum_os.Scheduler.Dispatch.Running.{OneRunning, runs_at, kill_current-OneRunning}
use quantum_os.Scheduler.Interrupts.{
  Board, Lines, kill_over_budget, marked_dead, with_kill_noted, on_board, in_user_mode,
  charge_current, charge, poll_lines, scheduler_tick,
}
use quantum_os.Scheduler.Interrupts.Tick.{
  IsSound, poll_lines-IsSound, Continues, quantum_step-Continues,
}

unfoldable pub runnable_entry : ℕ → Process → Bool
runnable_entry k p = valid_entry k p && (is_ready p.state && p.context_valid)

pub runnable_entry_lem : (k : ℕ) (ps : Processes) → is_runnable ps k ≡ runnable_entry k (ps.table k)
unfolding is_runnable runnable_entry process_get_by_pid process_is_valid
runnable_entry_lem k ps = elim (Bool-cases (valid_entry k (ps.table k))) [
  | inl valid ↦ ground (arith, valid)
  | inr invalid ↦ ground (arith, invalid)
]

-- What marking the process that runs as dead does to the entries.
pub marked_dead-entries :
    (m : Machine) (one : OneRunning m)
    → Alike
        (marked_dead one.holder m).processes
        (store one.holder (λ p. record p { state = terminated }) m.processes)
marked_dead-entries m one = set_state-Alike one.holder terminated m.processes one.holder_valid

pub marked_dead-quiet :
    (m : Machine) (one : OneRunning m) (k : ℕ)
    → runs_at (marked_dead one.holder m).processes k ≡ false
marked_dead-quiet m one k =
    let die = λ (p : Process). record p { state = terminated } in
    let runs = λ (p : Process). is_executing p.state in
    let entry = ap runs ((marked_dead-entries m one).entries k) in
    elim (Bool-cases (one.holder == k)) [
      | inl same ↦
          let e : one.holder ≡ k = ground (arith, same) in
          entry
          ∙ subst (λ j. runs ((store one.holder die m.processes).table j) ≡ false) e
              (ap runs (store_self one.holder die m.processes))
      | inr other ↦
          let ne : one.holder ≢ k = ground (arith, other) in
          entry ∙ ap runs (store-other one.holder die m.processes k ne) ∙ one.others k ne
    ]

pub marked_dead-runnable :
    (m : Machine) (one : OneRunning m) (k : ℕ)
    → one.holder ≢ k
    → is_runnable (marked_dead one.holder m).processes k ≡ is_runnable m.processes k
unfolding runnable_entry
marked_dead-runnable m one k ne =
    let die = λ (p : Process). record p { state = terminated } in
    runnable_entry_lem k (marked_dead one.holder m).processes
    ∙ ap (runnable_entry k) ((marked_dead-entries m one).entries k)
    ∙ ap (runnable_entry k) (store-other one.holder die m.processes k ne)
    ∙ sym (runnable_entry_lem k m.processes)

kill-Continues :
    (now kernel_cr3 x : ℕ) (b : Board) (s : IsSound b.machine)
    → x < max_processes
    → is_runnable b.machine.processes x ≡ true
    → Continues (kill_over_budget now kernel_cr3 s.one.holder b)
unfolding kill_over_budget
kill-Continues now kernel_cr3 x b s below can =
    let m = b.machine in
    let cur = s.one.holder in
    let ne : cur ≢ x = λ e. ground (
      arith,
      can,
      ap (is_runnable m.processes) e,
      running-not-runnable m.processes cur s.one.holder_runs,
    ) in
    let still = marked_dead-runnable m s.one x ne ∙ can in
    let (t, done, bounds) =
      kill_current-IsBounded now kernel_cr3 x (marked_dead cur m) below still s.bounded in
    (
      with_kill_noted now cur b t,
      ap (on_board (with_kill_noted now cur b)) done,
      record {
        one =
            kill_current-OneRunning now kernel_cr3 (marked_dead cur m) (marked_dead-quiet m s.one)
              done;
        bounded = bounds;
      },
    )

charge-Continues :
    (now kernel_cr3 : ℕ) (b : Board) (s : IsSound b.machine)
    → Continues (charge_current now kernel_cr3 s.one.holder b)
unfolding charge_current
charge-Continues now kernel_cr3 b s =
    let m = b.machine in
    let cur = s.one.holder in
    let ticked = record b { intents = manifest_tick cur b.intents } in
    let looked = record m { scheduler = (pick_next cur m.processes m.scheduler).1 } in
    let sound : IsSound looked = record {
      one = record {
        holder = s.one.holder;
        is_current = s.one.is_current;
        holder_valid = s.one.holder_valid;
        holder_runs = s.one.holder_runs;
        others = s.one.others;
      };
      bounded = look-IsBounded cur m.processes m.scheduler s.bounded;
    } in
    elim (Bool-cases (in_user_mode m && manifest_over_budget cur (manifest_tick cur b.intents))) [
      | inr spared ↦ rw spared (quantum_step-Continues now kernel_cr3 ticked s)
      | inl over ↦ elim (Option-cases (pick_next cur m.processes m.scheduler).0) [
        | inl nobody ↦
            rw (over, nobody)
              (quantum_step-Continues now kernel_cr3 (record ticked { machine = looked }) sound)
        | inr (pid, picked) ↦
            let (can, below) = pick_next-some cur m.processes m.scheduler picked in
            rw (over, picked)
              (kill-Continues now kernel_cr3 pid (record ticked { machine = looked }) sound below
                can)
      ]
    ]

-- A timer tick on a sound scheduler never panics, and leaves a sound one: exactly the current
-- process runs, the quantum, the boost budget and the cursor keep their bounds.
pub tick-Continues :
    (now kernel_cr3 : ℕ) (lines : Lines) (b : Board)
    → IsSound b.machine
    → Continues (scheduler_tick now kernel_cr3 lines b)
unfolding scheduler_tick
tick-Continues now kernel_cr3 lines b s =
    let polled = poll_lines-IsSound now kernel_cr3 lines b s in
    let after = poll_lines now kernel_cr3 lines b in
    subst (λ o. Continues (charge now kernel_cr3 o after)) (sym polled.one.is_current)
      (charge-Continues now kernel_cr3 after polled)
