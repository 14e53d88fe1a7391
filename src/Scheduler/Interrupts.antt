-- ===== src/Scheduler/Interrupts.antt =====
-- scheduler.c: what the timer tick and the two receive interrupts do. They run with interrupts off, so
-- each is one step. What the drivers answer, `com2_rx_pending`, `console_rx_pending` and
-- `virtio_vsock_poll`, is an argument.
use quantum_os.Prelude.{
  ℕ, ◌+◌, ◌%◌, ◌^◌, Bool, true, false, not, ◌&&◌, ◌||◌, Option, none, some, ltb, ◌==◌,
  if◌then◌else◌, find_first,
}
use quantum_os.Audit.{audit_record}
use quantum_os.Audit.Kind
use quantum_os.Audit.Ring.{event_ok, v_eperm, resource_device, resource_process}
use quantum_os.Capability.State.{System, success}
use quantum_os.Capability.Find.{cap_find_resource}
use quantum_os.Manifest.Table.{Intents, max_processes, manifest_clear, manifest_over_budget}
use quantum_os.Manifest.Quota.{manifest_tick}
use quantum_os.Process.{
  Process, Processes, is_schedulable, process_get_by_pid, process_get_generation,
}
use quantum_os.Process.ProcessState.{terminated}
use quantum_os.Process.Queue.{store, points_to, process_set_state}
use quantum_os.Scheduler.Pick.{is_runnable, is_boosted, pick_next}
use quantum_os.Scheduler.Dispatch.{Machine, scheduler_reschedule, scheduler_kill_current}
pub mod Tick
pub mod Alive
pub mod Kill
pub mod Deaths

-- DEVICE_ID_CONSOLE, DEVICE_ID_COM2, CAP_READ and SCHED_QUANTUM_TICKS
abbrev pub device_id_console : ℕ
device_id_console = 0x3f8

abbrev pub device_id_com2 : ℕ
device_id_com2 = 0x2f8

abbrev cap_read : ℕ
cap_read = 1

abbrev pub quantum_ticks : ℕ
quantum_ticks = 5

-- The machine, the manifests and the capability table.
pub record Board : Type 0 where
  pub machine : Machine
  pub intents : Intents
  pub caps : System

-- What the drivers answer on one tick.
pub record Lines : Type 0 where
  pub com2 : Bool
  pub console : Bool
  pub vsock : Bool

-- Ready, with a context, and not the process interrupted.
abbrev pub is_ready_elsewhere : ℕ → Processes → Bool
is_ready_elsewhere pid ps = is_runnable ps pid && not (points_to ps.current pid)

-- The live authority for a device, which a registration only points at.
abbrev pub may_read : ℕ → ℕ → ℕ → System → Bool
may_read now pid device s = elim (cap_find_resource now pid resource_device cap_read device s) [
  | success ↦ true
  | refusal ↦ false
]

abbrev pub flag : ℕ → Machine → Machine
flag pid m = record m { processes = store pid (λ p. record p { io_boost = true }) m.processes }

-- The tests of `scheduler_console_rx`, in the order of its returns.
unfoldable pub console_reader_waits : ℕ → Bool → Board → Bool
console_reader_waits now pending b =
    let s = b.machine.scheduler in
    let ps = b.machine.processes in
    (not (s.cons_reader_pid == 0) && (s.cons_reader_waiting && pending))
    && (process_get_generation s.cons_reader_pid ps == s.cons_reader_gen
        && (may_read now s.cons_reader_pid device_id_console b.caps
            && is_ready_elsewhere s.cons_reader_pid ps))

unfoldable pub scheduler_console_rx : ℕ → ℕ → Bool → Board → Board
scheduler_console_rx now kernel_cr3 pending b =
    let flagged = flag b.machine.scheduler.cons_reader_pid b.machine in
    let s = flagged.scheduler in
    let told = record flagged { scheduler = record s { cons_reader_waiting = false } } in
    if console_reader_waits now pending b
    then record b { machine = scheduler_reschedule now kernel_cr3 told }
    else b

unfoldable pub scheduler_net_rx : ℕ → ℕ → Machine → Machine
scheduler_net_rx now kernel_cr3 m =
    if m.scheduler.net_thread_pid == 0
      || not (is_ready_elsewhere m.scheduler.net_thread_pid m.processes)
    then m
    else scheduler_reschedule now kernel_cr3 (flag m.scheduler.net_thread_pid m)

abbrev pub is_some : Option ℕ → Bool
is_some none = false
is_some (some pid) = true

-- A boost that the next pick would honor.
unfoldable pub boost_pending : Processes → Bool
boost_pending ps = is_some (find_first max_processes 0 (is_boosted ps))

abbrev can_flag : Option Process → Bool
can_flag none = false
can_flag (some p) = is_schedulable p.state

-- The tests of `com2_rx_boost_check`, in the order of its returns.
unfoldable pub com2_holder_waits : ℕ → Bool → Board → Bool
com2_holder_waits now pending b =
    let s = b.machine.scheduler in
    let ps = b.machine.processes in
    (not (s.com2_holder_pid == 0) && pending)
    && (process_get_generation s.com2_holder_pid ps == s.com2_holder_gen
        && (may_read now s.com2_holder_pid device_id_com2 b.caps
            && can_flag (process_get_by_pid s.com2_holder_pid ps)))

unfoldable pub com2_rx_boost_check : ℕ → Bool → Board → Board
com2_rx_boost_check now pending b =
    if com2_holder_waits now pending b
    then record b { machine = flag b.machine.scheduler.com2_holder_pid b.machine }
    else b

abbrev pub on_board : (Machine → Board) → Option Machine → Option Board
on_board f none = none
on_board f (some m) = some (f m)

-- The record of the kill, and the manifest cleared.
abbrev pub with_kill_noted : ℕ → ℕ → Board → Machine → Board
with_kill_noted now cur b m =
    let caps = b.caps in
    let event = record (event_ok Kind.cpukill cur resource_process cur 0) { verdict = v_eperm } in
    record {
      machine = m;
      intents = manifest_clear cur b.intents;
      caps = record caps { ledger = audit_record now event caps.ledger };
    }

abbrev pub marked_dead : ℕ → Machine → Machine
marked_dead cur m = record m { processes = (process_set_state cur terminated m.processes).1 }

unfoldable pub kill_over_budget : ℕ → ℕ → ℕ → Board → Option Board
kill_over_budget now kernel_cr3 cur b =
    on_board (with_kill_noted now cur b)
      (scheduler_kill_current now kernel_cr3 (marked_dead cur b.machine))

-- The count of the quantum, and the switch at its end, or for a pending boost before it.
unfoldable pub count_quantum : ℕ → ℕ → Machine → Machine
count_quantum now kernel_cr3 m =
    let s = m.scheduler in
    let ticks = (s.quantum_counter + 1) % 2 ^ 32 in
    let counted = record m { scheduler = record s { quantum_counter = ticks } } in
    let expired = record m {
      scheduler = record s {
        quantum_counter = ticks;
        preempt_count = (s.preempt_count + 1) % 2 ^ 64;
      };
    } in
    if ltb ticks quantum_ticks
    then (if boost_pending m.processes
        then scheduler_reschedule now kernel_cr3 counted
        else counted)
    else scheduler_reschedule now kernel_cr3 expired

abbrev pub quantum_step : ℕ → ℕ → Board → Option Board
quantum_step now kernel_cr3 b = some (record b { machine = count_quantum now kernel_cr3 b.machine })

-- The two low bits of CS give the ring interrupted.
abbrev pub in_user_mode : Machine → Bool
in_user_mode m = not (m.frame.cs % 4 == 0)

-- The charge of one tick to the process interrupted, and the limit on what it declared. The pick is
-- made only where the other two tests have passed; it writes `pick_was_boost`.
unfoldable pub charge_current : ℕ → ℕ → ℕ → Board → Option Board
charge_current now kernel_cr3 cur b =
    let m = b.machine in
    let ticked = record b { intents = manifest_tick cur b.intents } in
    let (next, s) = pick_next cur m.processes m.scheduler in
    let looked = record ticked { machine = record m { scheduler = s } } in
    if in_user_mode m && manifest_over_budget cur ticked.intents
    then (if is_some next
        then kill_over_budget now kernel_cr3 cur looked
        else quantum_step now kernel_cr3 looked)
    else quantum_step now kernel_cr3 ticked

-- What a tick does before it charges the process interrupted.
unfoldable pub poll_lines : ℕ → ℕ → Lines → Board → Board
poll_lines now kernel_cr3 lines b =
    let flagged = com2_rx_boost_check now lines.com2 b in
    if lines.vsock then scheduler_console_rx now kernel_cr3 lines.console flagged else flagged

abbrev pub charge : ℕ → ℕ → Option ℕ → Board → Option Board
charge now kernel_cr3 none b = quantum_step now kernel_cr3 b
charge now kernel_cr3 (some cur) b = charge_current now kernel_cr3 cur b

-- `none` is the panic with nothing runnable.
unfoldable pub scheduler_tick : ℕ → ℕ → Lines → Board → Option Board
scheduler_tick now kernel_cr3 lines b =
    let polled = poll_lines now kernel_cr3 lines b in
    charge now kernel_cr3 polled.machine.processes.current polled
