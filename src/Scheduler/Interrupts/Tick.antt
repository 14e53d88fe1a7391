-- ===== src/Scheduler/Interrupts/Tick.antt =====
-- A timer tick keeps the scheduler sound, and never ends in a panic.
use quantum_os.Prelude.{
  ℕ, ◌+◌, ◌%◌, ◌^◌, Bool, true, false, Option, some, ltb, ◌≡◌, refl, inl, inr, ltb→lt, ap, ◌∙◌, sym,
  Bool-cases,
}
use quantum_os.Process.{Process, is_executing}
use quantum_os.Process.Queue.{store}
use quantum_os.Process.Essence.{store-reads, valid_entry, valid_entry_lem}
use quantum_os.Scheduler.{Scheduler}
use quantum_os.Scheduler.Bounds.{IsBounded, reschedule-IsBounded}
use quantum_os.Scheduler.Dispatch.{Machine, scheduler_reschedule}
use quantum_os.Scheduler.Dispatch.Running.{OneRunning, reschedule-OneRunning}
use quantum_os.Scheduler.Interrupts.{
  Board, Lines, flag, console_reader_waits, scheduler_console_rx, com2_holder_waits, boost_pending,
  com2_rx_boost_check, count_quantum, quantum_step, quantum_ticks, poll_lines,
}

-- One process runs, the current one, and the statics keep their bounds.
pub record IsSound (m : Machine) : Type 0 where
  pub one : OneRunning m
  pub bounded : IsBounded m.scheduler

pub flag-OneRunning : (pid : ℕ) (m : Machine) → OneRunning m → OneRunning (flag pid m)
flag-OneRunning pid m one =
    let boost = λ (p : Process). record p { io_boost = true } in
    let ps = m.processes in
    let state = λ (k : ℕ). store-reads (λ (p : Process). p.state) pid boost ps k (λ p. refl) in
    let valid = store-reads (valid_entry one.holder) pid boost ps one.holder (λ p. refl) in
    record {
      holder = one.holder;
      is_current = one.is_current;
      holder_valid =
          valid_entry_lem one.holder (store pid boost ps)
          ∙ valid
          ∙ sym (valid_entry_lem one.holder ps)
          ∙ one.holder_valid;
      holder_runs = state one.holder ∙ one.holder_runs;
      others = λ k ne. ap is_executing (state k) ∙ one.others k ne;
    }

-- The statics do not matter to it.
pub other_statics :
    (m : Machine) (s : Scheduler) → OneRunning m → OneRunning (record m { scheduler = s })
other_statics m s one = record {
  holder = one.holder;
  is_current = one.is_current;
  holder_valid = one.holder_valid;
  holder_runs = one.holder_runs;
  others = one.others;
}

flag-IsSound : (pid : ℕ) (m : Machine) → IsSound m → IsSound (flag pid m)
flag-IsSound pid m s = record { one = flag-OneRunning pid m s.one; bounded = s.bounded }

-- The quantum may have run out before.
reschedule-IsSound :
    (now kernel_cr3 : ℕ) (m : Machine) (b : Scheduler)
    → OneRunning m
    → IsBounded b
    → m.scheduler.consec_boost ≡ b.consec_boost
    → m.scheduler.rr_cursor ≡ b.rr_cursor
    → IsSound (scheduler_reschedule now kernel_cr3 m)
reschedule-IsSound now kernel_cr3 m b one bounds budget cursor = record {
  one = reschedule-OneRunning now kernel_cr3 m one;
  bounded =
      reschedule-IsBounded now kernel_cr3 one.holder m one.is_current (rw budget bounds.budget)
        (rw cursor bounds.cursor);
}

console_rx-IsSound :
    (now kernel_cr3 : ℕ) (pending : Bool) (b : Board)
    → IsSound b.machine
    → IsSound (scheduler_console_rx now kernel_cr3 pending b).machine
unfolding scheduler_console_rx
console_rx-IsSound now kernel_cr3 pending b s =
    let st = b.machine.scheduler in
    let f = flag st.cons_reader_pid b.machine in
    let told = record st { cons_reader_waiting = false } in
    elim (Bool-cases (console_reader_waits now pending b)) [
      | inr quiet ↦ rw quiet s
      | inl waits ↦ rw waits (
          reschedule-IsSound now kernel_cr3 (record f { scheduler = told }) st
            (other_statics f told (flag-OneRunning st.cons_reader_pid b.machine s.one)) s.bounded
            refl refl)
    ]

pub com2-IsSound :
    (now : ℕ) (pending : Bool) (b : Board)
    → IsSound b.machine
    → IsSound (com2_rx_boost_check now pending b).machine
unfolding com2_rx_boost_check
com2-IsSound now pending b s = elim (Bool-cases (com2_holder_waits now pending b)) [
  | inr quiet ↦ rw quiet s
  | inl waits ↦ rw waits (flag-IsSound b.machine.scheduler.com2_holder_pid b.machine s)
]

pub poll_lines-IsSound :
    (now kernel_cr3 : ℕ) (lines : Lines) (b : Board)
    → IsSound b.machine
    → IsSound (poll_lines now kernel_cr3 lines b).machine
unfolding poll_lines
poll_lines-IsSound now kernel_cr3 lines b s =
    let flagged = com2-IsSound now lines.com2 b s in
    elim (Bool-cases lines.vsock) [
      | inl input ↦ rw input (
          console_rx-IsSound now kernel_cr3 lines.console (com2_rx_boost_check now lines.com2 b)
            flagged)
      | inr quiet ↦ rw quiet flagged
    ]

count_quantum-IsSound :
    (now kernel_cr3 : ℕ) (m : Machine) → IsSound m → IsSound (count_quantum now kernel_cr3 m)
unfolding count_quantum
count_quantum-IsSound now kernel_cr3 m s =
    let st = m.scheduler in
    let ticks = (st.quantum_counter + 1) % 2 ^ 32 in
    let counted = record st { quantum_counter = ticks } in
    let expired = record counted { preempt_count = (st.preempt_count + 1) % 2 ^ 64 } in
    elim (Bool-cases (ltb ticks quantum_ticks)) [
      | inl within ↦ elim (Bool-cases (boost_pending m.processes)) [
        | inl pending ↦
            rw (within, pending)
              (reschedule-IsSound now kernel_cr3 (record m { scheduler = counted }) st
                (other_statics m counted s.one) s.bounded refl refl)
        | inr idle ↦
            rw (within, idle)
              (record {
                one = other_statics m counted s.one;
                bounded = record {
                  quantum = ltb→lt ticks quantum_ticks within;
                  budget = s.bounded.budget;
                  cursor = s.bounded.cursor;
                };
              })
      ]
      | inr over ↦ rw over (
          reschedule-IsSound now kernel_cr3 (record m { scheduler = expired }) st
            (other_statics m expired s.one) s.bounded refl refl)
    ]

-- The tick has a result, and it is sound.
abbrev pub Continues : Option Board → Type 0
Continues o = (c : Board) × (o ≡ some c) × IsSound c.machine

pub quantum_step-Continues :
    (now kernel_cr3 : ℕ) (b : Board) → IsSound b.machine → Continues (quantum_step now kernel_cr3 b)
quantum_step-Continues now kernel_cr3 b s = (
  record b { machine = count_quantum now kernel_cr3 b.machine },
  refl,
  count_quantum-IsSound now kernel_cr3 b.machine s,
)
