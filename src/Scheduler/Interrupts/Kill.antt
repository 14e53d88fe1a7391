-- ===== src/Scheduler/Interrupts/Kill.antt =====
-- Switches and polls kill nobody and revive nobody.
use quantum_os.Prelude.{
  ℕ, ◌+◌, ◌%◌, ◌^◌, Bool, true, false, ltb, ◌==◌, ◌≡◌, refl, inl, inr, arith, ap, ◌∙◌, sym,
  Bool-cases,
}
use quantum_os.Process.{Process, Processes, ProcessState, is_ready, process_is_valid}
use quantum_os.Process.ProcessState.{terminated}
use quantum_os.Process.Essence.{store-reads}
use quantum_os.Scheduler.Pick.{is_runnable, pick_next}
use quantum_os.Scheduler.Pick.Choice.{pick_next-some}
use quantum_os.Scheduler.Dispatch.{
  Machine, save_current, switch_in, quantum_reset, scheduler_reschedule,
}
use quantum_os.Scheduler.Dispatch.Switch.{
  stays, switches, reschedule_cases, picked-valid, save_current-OnlyAt, switch_in-OnlyAt,
}
use quantum_os.Scheduler.Dispatch.Turn.{runnable-valid}
use quantum_os.Scheduler.Dispatch.Running.{OneRunning}
use quantum_os.Scheduler.Interrupts.{
  Board, Lines, flag, console_reader_waits, scheduler_console_rx, com2_holder_waits,
  com2_rx_boost_check, boost_pending, count_quantum, quantum_ticks, poll_lines,
}
use quantum_os.Scheduler.Interrupts.Tick.{IsSound, flag-OneRunning, other_statics, com2-IsSound}
use quantum_os.Scheduler.Interrupts.Alive.{runnable_entry, runnable_entry_lem}

abbrev is_terminated : ProcessState → Bool
is_terminated terminated = true
is_terminated s = false

abbrev pub dead : Process → Bool
dead p = is_terminated p.state

-- Whether the entry is that of a terminated process.
abbrev pub dead_at : Machine → ℕ → Bool
dead_at m k = dead (m.processes.table k)

alive_ready : (s : ProcessState) → is_ready s ≡ true → is_terminated s ≡ false
alive_ready s h = ground (arith, h)

pub runnable-alive : (ps : Processes) (k : ℕ) → is_runnable ps k ≡ true → dead (ps.table k) ≡ false
unfolding runnable_entry
runnable-alive ps k can =
    let is : is_ready (ps.table k).state ≡ true = ground (arith, runnable_entry_lem k ps, can) in
    alive_ready (ps.table k).state is

pub switch_in-dead :
    (now kernel_cr3 pid : ℕ) (m : Machine)
    → process_is_valid pid m.processes ≡ true
    → dead_at m pid ≡ false
    → (k : ℕ) → dead_at (switch_in now kernel_cr3 pid m) k ≡ dead_at m k
switch_in-dead now kernel_cr3 pid m valid alive k =
    let (_, only) = switch_in-OnlyAt now kernel_cr3 pid m valid in
    elim (Bool-cases (pid == k)) [
      | inl same ↦
          let e : pid ≡ k = ground (arith, same) in rw (← e) (ap dead only.here ∙ sym alive)
      | inr other ↦ ap dead (only.others k (ground (arith, other)))
    ]

saved-dead :
    (m : Machine) (one : OneRunning m) (k : ℕ)
    → dead ((save_current one.holder m.frame m.processes).table k) ≡ dead_at m k
saved-dead m one k =
    let kept =
      save_current-OnlyAt one.holder m.frame m.processes one.holder_valid one.holder_runs in
    elim (Bool-cases (one.holder == k)) [
      | inl same ↦
          let e : one.holder ≡ k = ground (arith, same) in
          rw (← e) (ap dead kept.here ∙ sym (ap is_terminated one.holder_runs))
      | inr other ↦ ap dead (kept.others k (ground (arith, other)))
    ]

-- A reschedule kills nobody and revives nobody.
reschedule-dead :
    (now kernel_cr3 : ℕ) (m : Machine) (one : OneRunning m) (k : ℕ)
    → dead_at (scheduler_reschedule now kernel_cr3 m) k ≡ dead_at m k
reschedule-dead now kernel_cr3 m one k =
    let cur = one.holder in
    elim (reschedule_cases now kernel_cr3 cur m one.is_current) [
      | stays is ↦ ap (λ (t : Machine). dead_at t k) is
      | switches pid picked other is ↦
          let (can, _) = pick_next-some cur m.processes (quantum_reset m).scheduler picked in
          let mid = record m {
            processes = save_current cur m.frame m.processes;
            scheduler = (pick_next cur m.processes (quantum_reset m).scheduler).1;
          } in
          ap (λ (t : Machine). dead_at t k) is
          ∙ switch_in-dead now kernel_cr3 pid mid
              (picked-valid cur pid m one.holder_valid one.holder_runs
                (runnable-valid m.processes pid can) other)
              (saved-dead m one pid ∙ runnable-alive m.processes pid can) k
          ∙ saved-dead m one k
    ]

flag-dead : (pid : ℕ) (m : Machine) (k : ℕ) → dead_at (flag pid m) k ≡ dead_at m k
flag-dead pid m k =
    store-reads dead pid (λ p. record p { io_boost = true }) m.processes k (λ p. refl)

console_rx-dead :
    (now kernel_cr3 : ℕ) (pending : Bool) (b : Board)
    → OneRunning b.machine
    → (k : ℕ)
    → dead_at (scheduler_console_rx now kernel_cr3 pending b).machine k ≡ dead_at b.machine k
unfolding scheduler_console_rx
console_rx-dead now kernel_cr3 pending b one k =
    let st = b.machine.scheduler in
    let f = flag st.cons_reader_pid b.machine in
    let told = record st { cons_reader_waiting = false } in
    elim (Bool-cases (console_reader_waits now pending b)) [
      | inr quiet ↦ rw quiet refl
      | inl waits ↦ rw waits (
          reschedule-dead now kernel_cr3 (record f { scheduler = told })
            (other_statics f told (flag-OneRunning st.cons_reader_pid b.machine one)) k
          ∙ flag-dead st.cons_reader_pid b.machine k)
    ]

com2-dead :
    (now : ℕ) (pending : Bool) (b : Board) (k : ℕ)
    → dead_at (com2_rx_boost_check now pending b).machine k ≡ dead_at b.machine k
unfolding com2_rx_boost_check
com2-dead now pending b k = elim (Bool-cases (com2_holder_waits now pending b)) [
  | inr quiet ↦ rw quiet refl
  | inl waits ↦ rw waits (flag-dead b.machine.scheduler.com2_holder_pid b.machine k)
]

pub poll_lines-dead :
    (now kernel_cr3 : ℕ) (lines : Lines) (b : Board)
    → IsSound b.machine
    → (k : ℕ) → dead_at (poll_lines now kernel_cr3 lines b).machine k ≡ dead_at b.machine k
unfolding poll_lines
poll_lines-dead now kernel_cr3 lines b s k = elim (Bool-cases lines.vsock) [
  | inr quiet ↦ rw quiet (com2-dead now lines.com2 b k)
  | inl input ↦ rw input (
      console_rx-dead now kernel_cr3 lines.console (com2_rx_boost_check now lines.com2 b)
        (com2-IsSound now lines.com2 b s).one k
      ∙ com2-dead now lines.com2 b k)
]

pub count_quantum-dead :
    (now kernel_cr3 : ℕ) (m : Machine)
    → OneRunning m
    → (k : ℕ) → dead_at (count_quantum now kernel_cr3 m) k ≡ dead_at m k
unfolding count_quantum
count_quantum-dead now kernel_cr3 m one k =
    let st = m.scheduler in
    let ticks = (st.quantum_counter + 1) % 2 ^ 32 in
    let counted = record st { quantum_counter = ticks } in
    let expired = record counted { preempt_count = (st.preempt_count + 1) % 2 ^ 64 } in
    elim (Bool-cases (ltb ticks quantum_ticks)) [
      | inl within ↦ elim (Bool-cases (boost_pending m.processes)) [
        | inl pending ↦
            rw (within, pending)
              (reschedule-dead now kernel_cr3 (record m { scheduler = counted })
                (other_statics m counted one) k)
        | inr idle ↦ rw (within, idle) refl
      ]
      | inr over ↦ rw over (
          reschedule-dead now kernel_cr3 (record m { scheduler = expired })
            (other_statics m expired one) k)
    ]
