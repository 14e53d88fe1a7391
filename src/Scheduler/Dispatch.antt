-- ===== src/Scheduler/Dispatch.antt =====
-- scheduler.c: the switch from one process to another on the interrupt frame.
use quantum_os.Prelude.{ℕ, ◌+◌, ◌%◌, ◌^◌, true, Option, none, some, ◌==◌, if◌then◌else◌}
use quantum_os.Process.{CpuState, Process, Processes, is_executing}
use quantum_os.Process.Queue.{store, process_set_state, process_switch_to}
use quantum_os.Process.ProcessState.{running, ready}
use quantum_os.Scheduler.{Scheduler}
use quantum_os.Scheduler.Pick.{pick_next, pick_commit}
pub mod Switch
pub mod Turn
pub mod Running
pub mod Contexts

-- The process table, the scheduler's statics, the registers on the interrupt frame, and CR3.
pub record Machine : Type 0 where
  pub processes : Processes
  pub scheduler : Scheduler
  pub frame : CpuState
  pub cr3 : ℕ

-- The interrupted registers go to the entry of the current process.
abbrev pub saved : CpuState → Process → Process
saved state p = record p { context = state; context_valid = true; rip = state.rip; rsp = state.rsp }

abbrev pub save_current : ℕ → CpuState → Processes → Processes
save_current cur state ps =
    let kept = store cur (saved state) ps in
    if is_executing (kept.table cur).state then (process_set_state cur ready kept).1 else kept

-- The address space of a process, the kernel's own if it has none.
abbrev pub space_of : ℕ → Process → ℕ
space_of kernel_cr3 p = if p.cr3 == 0 then kernel_cr3 else p.cr3

-- What both ways to switch do with the process picked.
unfoldable pub switch_in : ℕ → ℕ → ℕ → Machine → Machine
switch_in now kernel_cr3 next m =
    let started = (process_set_state next running (process_switch_to now next m.processes).1).1 in
    let (ps, s) = pick_commit next started m.scheduler in
    record {
      processes = ps;
      scheduler = record s { switch_count = (s.switch_count + 1) % 2 ^ 64 };
      frame = (ps.table next).context;
      cr3 = space_of kernel_cr3 (ps.table next);
    }

abbrev pub quantum_reset : Machine → Machine
quantum_reset m = let s = m.scheduler in record m { scheduler = record s { quantum_counter = 0 } }

-- With `cur` current. The picked process may be `cur` itself, and then nothing is switched.
abbrev pub dispatch : ℕ → ℕ → ℕ → Option ℕ → Machine → Machine
dispatch now kernel_cr3 cur none m = m
dispatch now kernel_cr3 cur (some pid) m =
    if pid == cur
    then m
    else switch_in now kernel_cr3 pid
        (record m { processes = save_current cur m.frame m.processes })

unfoldable pub reschedule_from : ℕ → ℕ → ℕ → Machine → Machine
reschedule_from now kernel_cr3 cur m =
    let (next, s) = pick_next cur m.processes m.scheduler in
    dispatch now kernel_cr3 cur next (record m { scheduler = s })

-- `now` is the timer's ticks, `kernel_cr3` what `vmspace_kernel_cr3` returns.
unfoldable pub scheduler_reschedule : ℕ → ℕ → Machine → Machine
scheduler_reschedule now kernel_cr3 m = elim m.processes.current [
  | none ↦ quantum_reset m
  | some cur ↦ reschedule_from now kernel_cr3 cur (quantum_reset m)
]

abbrev pub from_current : Option ℕ → ℕ
from_current none = 0
from_current (some cur) = cur

-- `none` is the panic with nothing runnable.
abbrev pub take_over : ℕ → ℕ → Option ℕ → Machine → Option Machine
take_over now kernel_cr3 none m = none
take_over now kernel_cr3 (some pid) m = some (switch_in now kernel_cr3 pid (quantum_reset m))

unfoldable pub scheduler_kill_current : ℕ → ℕ → Machine → Option Machine
scheduler_kill_current now kernel_cr3 m =
    let (next, s) = pick_next (from_current m.processes.current) m.processes m.scheduler in
    take_over now kernel_cr3 next (record m { scheduler = s })
