-- ===== src/Scheduler/Examples.antt =====
-- Tests and witnesses of the scheduler, on a table of three processes.
use quantum_os.Prelude.{
  ℕ, zero, suc, ◌<◌, ◌≤◌, ◌∙◌, sym, ◌&&◌, ◌||◌, true, false, some, ◌==◌, if◌then◌else◌, ◌≡◌, ◌≢◌,
  refl, inl, inr, arith, ap, Bool-cases, find_first,
}
use quantum_os.Process.{
  Process, Processes, zero_process, no_processes, process_magic, process_is_valid,
  process_get_by_pid,
}
use quantum_os.Process.ProcessType.{user}
use quantum_os.Process.ProcessState.{running, ready}
use quantum_os.Process.Queue.{
  process_set_state, process_switch_to, add_to_ready_queue, remove_from_ready_queue,
}
use quantum_os.Scheduler.{Scheduler, scheduler_at_boot}
use quantum_os.Scheduler.Pick.{
  is_runnable, is_boosted, boost_scan, plain_scan, pick_next, pick_commit,
}
use quantum_os.Scheduler.Pick.Order.{is_work, or_next, rotation, idle_pick}
use quantum_os.Scheduler.Pick.Choice.{pick_next-reference, boost_candidate}
use quantum_os.Scheduler.Dispatch.{Machine, switch_in, reschedule_from, scheduler_reschedule}
use quantum_os.Scheduler.Dispatch.Turn.{Waits, NoTurnBefore, turn_comes}
use quantum_os.Scheduler.Dispatch.Running.{OneRunning}
use quantum_os.Scheduler.Dispatch.Contexts.{some_same, switch_back, left_processor}
use quantum_os.Scheduler.Interrupts.{
  Board, Lines, scheduler_tick, poll_lines, com2_rx_boost_check, com2_holder_waits,
}
use quantum_os.Scheduler.Interrupts.Tick.{IsSound, Continues}
use quantum_os.Scheduler.Interrupts.Alive.{tick-Continues}
use quantum_os.Scheduler.Interrupts.Kill.{dead_at}
use quantum_os.Scheduler.Interrupts.Deaths.{tick-DeadAfter, doomed}
use quantum_os.Manifest.Table.{empty_manifest, manifest_over_budget, manifest_clear}
use quantum_os.Manifest.Quota.{manifest_tick}
use quantum_os.Capability.History.Kept.{image}
use quantum_os.Audit.Examples.{empty_ledger}

-- A process with `r` in its RAX.
abbrev worker : ℕ → Process
worker r =
    let regs = zero_process.context in
    record zero_process {
      magic = process_magic;
      state = ready;
      type = user;
      context_valid = true;
      context = record regs { rax = r; cs = 0x23 };
    }

-- Process 0 runs; 1, which is idle, and 7 are ready.
abbrev entry_of : ℕ → Process
entry_of k =
    let first = worker 10 in
    if k == 0
    then record first { state = running }
    else (if k == 1 then worker 11 else (if k == 7 then worker 17 else zero_process))

abbrev three : Processes
three = record no_processes { table = entry_of; initialized = true; current = some 0 }

abbrev beginning : Machine
beginning =
    let regs = zero_process.context in
    record {
      processes = three;
      scheduler = scheduler_at_boot;
      frame = record regs { rax = 99; cs = 0x23 };
      cr3 = 0x1000;
    }

-- Process 7 is next.
picks_seven : (pick_next 0 three scheduler_at_boot).0 ≡ some 7
unfolding pick_next boost_scan plain_scan find_first is_runnable is_boosted process_get_by_pid
    process_is_valid
picks_seven = refl

dispatches_seven : (scheduler_reschedule 5 0x1000 beginning).processes.current ≡ some 7
unfolding scheduler_reschedule reschedule_from switch_in pick_commit pick_next boost_scan plain_scan
    find_first is_runnable is_boosted process_get_by_pid process_is_valid process_set_state
    process_switch_to add_to_ready_queue remove_from_ready_queue
dispatches_seven = refl

-- Process 7, boosted, is picked before the cursor's next.
pick_next-reference_example :
    (pick_next 5 three scheduler_at_boot).0
    ≡ or_next
        (boost_candidate 5 three scheduler_at_boot)
        (or_next (rotation (is_work three) 256 1 0) (idle_pick three))
pick_next-reference_example = pick_next-reference 5 three scheduler_at_boot

beginning-OneRunning : OneRunning beginning
unfolding process_is_valid
beginning-OneRunning = record {
  holder = 0;
  is_current = refl;
  holder_valid = refl;
  holder_runs = refl;
  others = λ k ne. elim (Bool-cases (k == 1)) [
    | inl idle ↦ ground (arith, ne, idle)
    | inr other ↦ ground (arith, ne, other, Bool-cases (k == 7))
  ];
}

-- Between two calls the three processes come to stand as at the beginning.
run : ℕ → Machine
run zero = beginning
run (suc k) = record beginning { scheduler = (scheduler_reschedule k 0x1000 (run k)).scheduler }

beginning-Waits : (s : Scheduler) → Waits 7 (record beginning { scheduler = s })
unfolding process_is_valid is_runnable process_get_by_pid
beginning-Waits s = record {
  holder = 0;
  is_current = refl;
  holder_valid = refl;
  holder_runs = refl;
  can_run = refl;
}

run-Waits : (k : ℕ) → NoTurnBefore 0x1000 7 (λ j. j) run k → Waits 7 (run k)
unfolding run
run-Waits zero before = beginning-Waits scheduler_at_boot
run-Waits (suc k) before = beginning-Waits (scheduler_reschedule k 0x1000 (run k)).scheduler

run-cursor :
    (k : ℕ)
    → ((run (suc k)).scheduler.rr_cursor
        ≡ (scheduler_reschedule k 0x1000 (run k)).scheduler.rr_cursor)
      × ((run (suc k)).scheduler.consec_boost
          ≡ (scheduler_reschedule k 0x1000 (run k)).scheduler.consec_boost)
unfolding run
run-cursor k = (refl, refl)

run-budget : (run 0).scheduler.consec_boost ≤ 2
unfolding run
run-budget = omega arith

turn_comes_example :
    (j : ℕ) × (j < 768) × ((scheduler_reschedule j 0x1000 (run j)).processes.current ≡ some 7)
turn_comes_example =
    turn_comes 0x1000 7 (λ j. j) run (omega arith) run-Waits (λ k. (run-cursor k).0)
      (λ k. (run-cursor k).1) run-budget

-- The machine once process 7 has taken over.
abbrev swapped : Machine
swapped = scheduler_reschedule 5 0x1000 beginning

seven_is_not_zero : swapped.processes.current ≢ some 0
seven_is_not_zero e = ground (arith, some_same (sym dispatches_seven ∙ e))

back_to_zero : (scheduler_reschedule 9 0x1000 swapped).processes.current ≡ some 0
unfolding scheduler_reschedule reschedule_from switch_in pick_commit pick_next boost_scan plain_scan
    find_first is_runnable is_boosted process_get_by_pid process_is_valid process_set_state
    process_switch_to add_to_ready_queue remove_from_ready_queue
back_to_zero = refl

-- The frame that process 0 was interrupted with comes back.
switch_back_example : (scheduler_reschedule 9 0x1000 swapped).frame ≡ beginning.frame
switch_back_example =
    switch_back 5 0x1000 9 0x1000 0 beginning swapped beginning-OneRunning refl seven_is_not_zero
      left_processor back_to_zero

beginning-IsSound : IsSound beginning
beginning-IsSound = record {
  one = beginning-OneRunning;
  bounded = record { quantum = omega arith; budget = omega arith; cursor = omega arith };
}

-- Process 0 has declared a budget of one tick.
abbrev board : Board
board = record {
  machine = beginning;
  intents = λ _. record empty_manifest { bound = true; cpu_limit = 1 };
  caps = image empty_ledger;
}

abbrev quiet : Lines
quiet = record { com2 = false; console = false; vsock = false }

sound_tick : Continues (scheduler_tick 5 0x1000 quiet board)
sound_tick = tick-Continues 5 0x1000 quiet board beginning-IsSound

tick-Continues_example : Continues (scheduler_tick 5 0x1000 quiet board)
tick-Continues_example = tick-Continues 5 0x1000 quiet board beginning-IsSound

after_kill : Board
after_kill = sound_tick.0

killed : scheduler_tick 5 0x1000 quiet board ≡ some after_kill
unfolding after_kill
killed = sound_tick.1

polled : poll_lines 5 0x1000 quiet board ≡ board
unfolding poll_lines com2_rx_boost_check com2_holder_waits
polled = refl

-- It is over its budget, in ring 3, with process 7 to take over.
zero_is_doomed : doomed 0 board ≡ true
unfolding manifest_over_budget manifest_tick pick_next boost_scan plain_scan find_first is_runnable
    is_boosted process_get_by_pid process_is_valid
zero_is_doomed = refl

tick-DeadAfter_example :
    let before = poll_lines 5 0x1000 quiet board in
    ((k : ℕ) → dead_at after_kill.machine k ≡ (dead_at beginning k || (0 == k && doomed 0 before)))
    × (after_kill.intents ≡ (
        if doomed 0 before
        then manifest_clear 0 (manifest_tick 0 before.intents)
        else manifest_tick 0 before.intents))
tick-DeadAfter_example =
    tick-DeadAfter 5 0x1000 0 quiet board after_kill beginning-IsSound
      (ap (λ (b : Board). b.machine.processes.current) polled) killed
