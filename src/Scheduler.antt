-- ===== src/Scheduler.antt =====
-- scheduler.c: its statics, the boost that a delivered message gives its receiver, and the three
-- processes that device input wakes. The build is the default one, SCHED_IO_BOOST set, with neither
-- SCHED_RESONANT nor SCHED_LOTTERY.
use quantum_os.Prelude.{ℕ, Bool, true, false, not, none, some, ◌==◌, if◌then◌else◌, update}
use quantum_os.Process.{Processes, process_get_by_pid, is_ready}
pub mod Pick
pub mod Dispatch
pub mod Interrupts
pub mod Bounds
pub mod Examples

-- The file's statics.
pub record Scheduler : Type 0 where
  pub switch_count : ℕ
  pub quantum_counter : ℕ
  pub preempt_count : ℕ
  pub boost_count : ℕ
  pub consec_boost : ℕ
  pub pick_was_boost : Bool
  pub com2_holder_pid : ℕ
  pub com2_holder_gen : ℕ
  pub cons_reader_pid : ℕ
  pub cons_reader_gen : ℕ
  pub cons_reader_waiting : Bool
  pub net_thread_pid : ℕ
  pub rr_cursor : ℕ

abbrev pub scheduler_at_boot : Scheduler
scheduler_at_boot = record {
  switch_count = 0;
  quantum_counter = 0;
  preempt_count = 0;
  boost_count = 0;
  consec_boost = 0;
  pick_was_boost = false;
  com2_holder_pid = 0;
  com2_holder_gen = 0;
  cons_reader_pid = 0;
  cons_reader_gen = 0;
  cons_reader_waiting = false;
  net_thread_pid = 0;
  rr_cursor = 0;
}

unfoldable pub scheduler_boost_if_ready : ℕ → Processes → Processes
scheduler_boost_if_ready pid ps = elim (process_get_by_pid pid ps) [
  | none ↦ ps
  | some p ↦
      if is_ready p.state
      then record ps { table = update ps.table pid (record p { io_boost = true }) }
      else ps
]

unfoldable pub scheduler_com2_holder_set : ℕ → ℕ → Scheduler → Scheduler
scheduler_com2_holder_set pid generation s = record s {
  com2_holder_pid = pid;
  com2_holder_gen = generation;
}

unfoldable pub scheduler_com2_holder_clear : ℕ → Scheduler → Scheduler
scheduler_com2_holder_clear pid s =
    if s.com2_holder_pid == pid then record s { com2_holder_pid = 0; com2_holder_gen = 0 } else s

unfoldable pub scheduler_console_reader_note : ℕ → ℕ → ℕ → Scheduler → Scheduler
scheduler_console_reader_note pid generation got s = record s {
  cons_reader_pid = pid;
  cons_reader_gen = generation;
  cons_reader_waiting = got == 0;
}

unfoldable pub scheduler_console_reader_clear : ℕ → Scheduler → Scheduler
scheduler_console_reader_clear pid s =
    if s.cons_reader_pid == pid
    then record s { cons_reader_pid = 0; cons_reader_gen = 0; cons_reader_waiting = false }
    else s

unfoldable pub scheduler_net_thread_set : ℕ → Scheduler → Scheduler
scheduler_net_thread_set pid s = record s { net_thread_pid = pid }

unfoldable pub scheduler_net_kick : Scheduler → Processes → Processes
scheduler_net_kick s ps =
    if not (s.net_thread_pid == 0) then scheduler_boost_if_ready s.net_thread_pid ps else ps
