-- ===== src/Scheduler/Dispatch/Contexts.antt =====
-- The registers of a process that loses the processor come back when it is dispatched again.
use quantum_os.Prelude.{
  ℕ, some, ◌==◌, ◌≡◌, refl, inl, inr, arith, ap, ◌∙◌, sym, ◌≢◌, Bool-cases, subst,
}
use quantum_os.Process.{CpuState, Process, Processes}
use quantum_os.Scheduler.Pick.{pick_next}
use quantum_os.Scheduler.Pick.Choice.{pick_next-some}
use quantum_os.Scheduler.Dispatch.{
  Machine, save_current, switch_in, quantum_reset, scheduler_reschedule,
}
use quantum_os.Scheduler.Dispatch.Switch.{
  OnlyAt, entered, stays, switches, reschedule_cases, picked-valid, switched, save_current-OnlyAt,
  switch_in-OnlyAt,
}
use quantum_os.Scheduler.Dispatch.Turn.{runnable-valid}
use quantum_os.Scheduler.Dispatch.Running.{OneRunning, reschedule-OneRunning}

abbrev context_of : Machine → ℕ → CpuState
context_of m x = (m.processes.table x).context

-- A switch to a process writes no context.
switch_in-context :
    (pid : ℕ) (before after : Processes)
    → OnlyAt pid entered before after
    → (k : ℕ) → (after.table k).context ≡ (before.table k).context
switch_in-context pid before after only k = elim (Bool-cases (pid == k)) [
  | inl same ↦
      let e : pid ≡ k = ground (arith, same) in rw (← e) (ap (λ (p : Process). p.context) only.here)
  | inr other ↦ ap (λ (p : Process). p.context) (only.others k (ground (arith, other)))
]

frame_loaded :
    (now kernel_cr3 pid : ℕ) (m : Machine)
    → (switch_in now kernel_cr3 pid m).frame ≡ context_of (switch_in now kernel_cr3 pid m) pid
unfolding switch_in
frame_loaded now kernel_cr3 pid m = refl

-- Only the process that loses the processor has its context written.
pub record Swapped (cur pid : ℕ) (m t : Machine) : Type 0 where
  pub stored : context_of t cur ≡ m.frame
  pub others : (k : ℕ) → cur ≢ k → context_of t k ≡ context_of m k
  pub loaded : t.frame ≡ context_of m pid
  pub is_current : t.processes.current ≡ some pid

switched-Swapped :
    (now kernel_cr3 pid : ℕ) (m : Machine) (one : OneRunning m)
    → (pick_next one.holder m.processes (quantum_reset m).scheduler).0 ≡ some pid
    → pid ≢ one.holder
    → Swapped one.holder pid m (switched now kernel_cr3 one.holder pid m)
switched-Swapped now kernel_cr3 pid m one picked other =
    let cur = one.holder in
    let (can, _) = pick_next-some cur m.processes (quantum_reset m).scheduler picked in
    let valid = runnable-valid m.processes pid can in
    let kept = save_current-OnlyAt cur m.frame m.processes one.holder_valid one.holder_runs in
    let still = picked-valid cur pid m one.holder_valid one.holder_runs valid other in
    let mid = record m {
      processes = save_current cur m.frame m.processes;
      scheduler = (pick_next cur m.processes (quantum_reset m).scheduler).1;
    } in
    let (here, only) = switch_in-OnlyAt now kernel_cr3 pid mid still in
    let same =
      switch_in-context pid mid.processes (switch_in now kernel_cr3 pid mid).processes only in
    let unsaved = λ (k : ℕ) (ne : cur ≢ k). ap (λ (p : Process). p.context) (kept.others k ne) in
    record {
      stored = same cur ∙ ap (λ (p : Process). p.context) kept.here;
      others = λ k ne. same k ∙ unsaved k ne;
      loaded = frame_loaded now kernel_cr3 pid mid ∙ same pid ∙ unsaved pid (λ e. other (sym e));
      is_current = here;
    }

-- What happens while `x` is off the processor: switches between others, and any step of the kernel
-- that leaves its saved context, with one process running that is not `x`.
pub data Away (x : ℕ) (m : Machine) : Machine → Type 0 where
  left_processor : Away x m m
  dispatch_other :
      {t : Machine} (now kernel_cr3 : ℕ)
      → Away x m t
      → (scheduler_reschedule now kernel_cr3 t).processes.current ≢ some x
      → Away x m (scheduler_reschedule now kernel_cr3 t)
  kernel_step :
      {t : Machine} (u : Machine)
      → Away x m t
      → OneRunning u
      → u.processes.current ≢ some x
      → context_of u x ≡ context_of t x
      → Away x m u

-- `x` does not run, and has the context that it had.
record Parked (x : ℕ) (m t : Machine) : Type 0 where
  one : OneRunning t
  absent : t.processes.current ≢ some x
  context : context_of t x ≡ context_of m x

not_holder :
    {x : ℕ} (t : Machine) (one : OneRunning t) → t.processes.current ≢ some x → one.holder ≢ x
not_holder t one absent e = absent (one.is_current ∙ ap (λ k. some k) e)

reschedule-context :
    (now kernel_cr3 : ℕ) (t : Machine) (x : ℕ) (one : OneRunning t)
    → one.holder ≢ x
    → context_of (scheduler_reschedule now kernel_cr3 t) x ≡ context_of t x
reschedule-context now kernel_cr3 t x one ne =
    elim (reschedule_cases now kernel_cr3 one.holder t one.is_current) [
      | stays is ↦ ap (λ (u : Machine). context_of u x) is
      | switches pid picked other is ↦
          ap (λ (u : Machine). context_of u x) is
          ∙ (switched-Swapped now kernel_cr3 pid t one picked other).others x ne
    ]

Away-Parked :
    {x : ℕ} {m t : Machine}
    → OneRunning m
    → m.processes.current ≢ some x
    → Away x m t
    → Parked x m t
Away-Parked one absent left_processor = record { one = one; absent = absent; context = refl }
Away-Parked {x} one absent (dispatch_other {t} now kernel_cr3 away still) =
    let p = Away-Parked one absent away in
    record {
      one = reschedule-OneRunning now kernel_cr3 t p.one;
      absent = still;
      context =
          reschedule-context now kernel_cr3 t x p.one (not_holder t p.one p.absent) ∙ p.context;
    }
Away-Parked one absent (kernel_step u away runs still same) =
    let p = Away-Parked one absent away in
    record { one = runs; absent = still; context = same ∙ p.context }

pub some_same : {a b : ℕ} → some a ≡ some b → a ≡ b
some_same e = ground (arith, e)

-- A switch away from the process that runs, and one back to it after any time `Away`, give it the
-- interrupt frame with which it was interrupted.
pub switch_back :
    (now kernel_cr3 now' kernel_cr3' x : ℕ) (m t : Machine)
    → OneRunning m
    → m.processes.current ≡ some x
    → (scheduler_reschedule now kernel_cr3 m).processes.current ≢ some x
    → Away x (scheduler_reschedule now kernel_cr3 m) t
    → (scheduler_reschedule now' kernel_cr3' t).processes.current ≡ some x
    → (scheduler_reschedule now' kernel_cr3' t).frame ≡ m.frame
switch_back now kernel_cr3 now' kernel_cr3' x m t one runs gone away back =
    let mine : one.holder ≡ x = some_same (sym one.is_current ∙ runs) in
    let p = Away-Parked (reschedule-OneRunning now kernel_cr3 m one) gone away in
    let out : context_of (scheduler_reschedule now kernel_cr3 m) x ≡ m.frame =
      elim (reschedule_cases now kernel_cr3 one.holder m one.is_current) [
        | stays is ↦ absurd (gone (ap (λ (u : Machine). u.processes.current) is ∙ runs))
        | switches pid picked other is ↦
            ap (λ (u : Machine). context_of u x) is
            ∙ subst (λ k. context_of (switched now kernel_cr3 one.holder pid m) k ≡ m.frame) mine
                (switched-Swapped now kernel_cr3 pid m one picked other).stored
      ] in
    elim (reschedule_cases now' kernel_cr3' p.one.holder t p.one.is_current) [
      | stays is ↦ absurd (p.absent (sym (ap (λ (u : Machine). u.processes.current) is) ∙ back))
      | switches pid picked other is ↦
          let s = switched-Swapped now' kernel_cr3' pid t p.one picked other in
          let him : pid ≡ x =
            some_same
              (sym s.is_current ∙ sym (ap (λ (u : Machine). u.processes.current) is) ∙ back) in
          ap (λ (u : Machine). u.frame) is ∙ s.loaded ∙ ap (context_of t) him ∙ p.context ∙ out
    ]
