-- ===== src/Scheduler/Dispatch/Running.antt =====
-- One process runs at a time, and it is the current one.
use quantum_os.Prelude.{
  ℕ, Bool, true, false, Option, none, some, ◌==◌, ◌≡◌, inl, inr, arith, ap, ◌∙◌, sym, ◌≢◌,
  Bool-cases, Option-cases, subst,
}
use quantum_os.Process.{Process, Processes, process_is_valid, is_executing}
use quantum_os.Process.ProcessState.{running}
use quantum_os.Process.Essence.{valid_entry, valid_entry_lem}
use quantum_os.Scheduler.Pick.{pick_next}
use quantum_os.Scheduler.Pick.Choice.{pick_next-some}
use quantum_os.Scheduler.Dispatch.{
  Machine, save_current, switch_in, quantum_reset, scheduler_reschedule, scheduler_kill_current,
  from_current, take_over,
}
use quantum_os.Scheduler.Dispatch.Switch.{
  OnlyAt, entered, stays, switches, reschedule_cases, picked-valid, switched, save_current-OnlyAt,
  switch_in-OnlyAt,
}
use quantum_os.Scheduler.Dispatch.Turn.{runnable-valid}

-- The state of an entry.
abbrev pub runs_at : Processes → ℕ → Bool
runs_at ps k = is_executing (ps.table k).state

pub record OneRunning (m : Machine) : Type 0 where
  pub holder : ℕ
  pub is_current : m.processes.current ≡ some holder
  pub holder_valid : process_is_valid holder m.processes ≡ true
  pub holder_runs : (m.processes.table holder).state ≡ running
  pub others : (k : ℕ) → holder ≢ k → runs_at m.processes k ≡ false

entered-valid :
    (pid : ℕ) (before after : Processes)
    → OnlyAt pid entered before after
    → process_is_valid pid before ≡ true
    → process_is_valid pid after ≡ true
entered-valid pid before after only can =
    let entry = ap (valid_entry pid) only.here in
    ground (arith, entry, valid_entry_lem pid after, valid_entry_lem pid before, can)

-- Nobody but `pid` runs once it is switched to, if nobody else ran before.
pub switch_in-OneRunning :
    (now kernel_cr3 pid : ℕ) (m : Machine)
    → process_is_valid pid m.processes ≡ true
    → ((k : ℕ) → pid ≢ k → runs_at m.processes k ≡ false)
    → OneRunning (switch_in now kernel_cr3 pid m)
switch_in-OneRunning now kernel_cr3 pid m can quiet =
    let (here, only) = switch_in-OnlyAt now kernel_cr3 pid m can in
    record {
      holder = pid;
      is_current = here;
      holder_valid =
          entered-valid pid m.processes (switch_in now kernel_cr3 pid m).processes only can;
      holder_runs = ap (λ (p : Process). p.state) only.here;
      others = λ k ne. ap (λ (p : Process). is_executing p.state) (only.others k ne) ∙ quiet k ne;
    }

saved-quiet :
    (cur : ℕ) (m : Machine)
    → process_is_valid cur m.processes ≡ true
    → (m.processes.table cur).state ≡ running
    → ((k : ℕ) → cur ≢ k → runs_at m.processes k ≡ false)
    → (k : ℕ) → runs_at (save_current cur m.frame m.processes) k ≡ false
saved-quiet cur m valid runs quiet k =
    let kept = save_current-OnlyAt cur m.frame m.processes valid runs in
    elim (Bool-cases (cur == k)) [
      | inl same ↦
          let e : cur ≡ k = ground (arith, same) in
          rw (← e) (ap (λ (p : Process). is_executing p.state) kept.here)
      | inr other ↦
          let ne : cur ≢ k = ground (arith, other) in
          ap (λ (p : Process). is_executing p.state) (kept.others k ne) ∙ quiet k ne
    ]

pub switched-OneRunning :
    (now kernel_cr3 pid : ℕ) (m : Machine) (one : OneRunning m)
    → (pick_next one.holder m.processes (quantum_reset m).scheduler).0 ≡ some pid
    → pid ≢ one.holder
    → OneRunning (switched now kernel_cr3 one.holder pid m)
switched-OneRunning now kernel_cr3 pid m one picked other =
    let (can, _) = pick_next-some one.holder m.processes (quantum_reset m).scheduler picked in
    switch_in-OneRunning now kernel_cr3 pid
      (record m {
        processes = save_current one.holder m.frame m.processes;
        scheduler = (pick_next one.holder m.processes (quantum_reset m).scheduler).1;
      })
      (picked-valid one.holder pid m one.holder_valid one.holder_runs
        (runnable-valid m.processes pid can) other)
      (λ k ne. saved-quiet one.holder m one.holder_valid one.holder_runs one.others k)

pub reschedule-OneRunning :
    (now kernel_cr3 : ℕ) (m : Machine)
    → OneRunning m
    → OneRunning (scheduler_reschedule now kernel_cr3 m)
reschedule-OneRunning now kernel_cr3 m one =
    elim (reschedule_cases now kernel_cr3 one.holder m one.is_current) [
      | stays is ↦ subst OneRunning (sym is) (record {
        holder = one.holder;
        is_current = one.is_current;
        holder_valid = one.holder_valid;
        holder_runs = one.holder_runs;
        others = one.others;
      })
      | switches pid picked other is ↦
          subst OneRunning (sym is) (switched-OneRunning now kernel_cr3 pid m one picked other)
    ]

value_or : Machine → Option Machine → Machine
value_or d none = d
value_or d (some m) = m

pub some_injective : {m t : Machine} → some m ≡ some t → m ≡ t
unfolding value_or
some_injective {m} e = ap (value_or m) e

pub kill_dispatch :
    (now kernel_cr3 : ℕ) (m : Machine) (next : Option ℕ)
    → (pick_next (from_current m.processes.current) m.processes m.scheduler).0 ≡ next
    → scheduler_kill_current now kernel_cr3 m
      ≡ take_over now kernel_cr3 next (record m {
        scheduler = (pick_next (from_current m.processes.current) m.processes m.scheduler).1;
      })
unfolding scheduler_kill_current
kill_dispatch now kernel_cr3 m next picked =
    ap
      (λ o. take_over now kernel_cr3 o (record m {
        scheduler = (pick_next (from_current m.processes.current) m.processes m.scheduler).1;
      }))
      picked

-- After the process that ran was marked dead, the next one runs alone.
pub kill_current-OneRunning :
    (now kernel_cr3 : ℕ) (m : Machine) {t : Machine}
    → ((k : ℕ) → runs_at m.processes k ≡ false)
    → scheduler_kill_current now kernel_cr3 m ≡ some t
    → OneRunning t
kill_current-OneRunning now kernel_cr3 m {t} quiet done =
    let from = from_current m.processes.current in
    elim (Option-cases (pick_next from m.processes m.scheduler).0) [
      | inl nobody ↦ absurd (ground (arith, kill_dispatch now kernel_cr3 m none nobody, done))
      | inr (pid, picked) ↦
          let (can, _) = pick_next-some from m.processes m.scheduler picked in
          let is = sym (kill_dispatch now kernel_cr3 m (some pid) picked) ∙ done in
          subst OneRunning (some_injective is) (
            switch_in-OneRunning now kernel_cr3 pid
              (quantum_reset (record m { scheduler = (pick_next from m.processes m.scheduler).1 }))
              (runnable-valid m.processes pid can) (λ k ne. quiet k))
    ]
