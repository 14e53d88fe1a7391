-- ===== src/Scheduler/Dispatch/Switch.antt =====
-- What a switch leaves in the process table.
use quantum_os.Prelude.{
  ℕ, ◌≡◌, ◌≢◌, refl, ap, ◌∙◌, sym, true, false, Option, none, some, ◌==◌, ==_ne, Bool-cases,
  Option-cases, inl, inr, arith,
}
use quantum_os.Process.{CpuState, Process, Processes, is_executing, process_is_valid}
use quantum_os.Process.ProcessState.{running, ready}
use quantum_os.Process.Queue.{store, process_set_state, process_switch_to}
use quantum_os.Process.Essence.{
  essence, Alike, Alike-trans, store_both, store-other, store_self, set_state-Alike,
  switch_to-alike, valid-alike, valid_entry, valid_entry_lem,
}
use quantum_os.Scheduler.Pick.{pick_next, pick_commit}
use quantum_os.Scheduler.Dispatch.{
  Machine, saved, save_current, switch_in, quantum_reset, dispatch, reschedule_from,
  scheduler_reschedule,
}

-- One entry is changed as `f` says, the others are left, up to links and times.
pub record OnlyAt (pid : ℕ) (f : Process → Process) (before after : Processes) : Type 0 where
  pub here : essence (after.table pid) ≡ essence (f (before.table pid))
  pub others : (k : ℕ) → pid ≢ k → essence (after.table k) ≡ essence (before.table k)

abbrev pub entered : Process → Process
entered p = record p { state = running; io_boost = false }

abbrev pub left : CpuState → Process → Process
left frame p = let q = saved frame p in record q { state = ready }

started-Alike :
    (now next : ℕ) (ps : Processes)
    → process_is_valid next ps ≡ true
    → Alike
        (process_set_state next running (process_switch_to now next ps).1).1
        (store next (λ p. record p { state = running }) (record ps { current = some next }))
started-Alike now next ps valid =
    let a = switch_to-alike now next ps valid in
    let still = valid-alike next (process_switch_to now next ps).1 ps (a.entries next) ∙ valid in
    Alike-trans (set_state-Alike next running (process_switch_to now next ps).1 still) (
      store_both next (λ p. record p { state = running })
        (λ p q e. ap (λ (r : Process). record r { state = running }) e) a)

-- The process switched to is current, running, and has lost its boost.
pub switch_in-OnlyAt :
    (now kernel_cr3 next : ℕ) (m : Machine)
    → process_is_valid next m.processes ≡ true
    → ((switch_in now kernel_cr3 next m).processes.current ≡ some next)
      × OnlyAt next entered m.processes (switch_in now kernel_cr3 next m).processes
unfolding switch_in pick_commit
switch_in-OnlyAt now kernel_cr3 next m valid =
    let ps = m.processes in
    let a =
      store_both next (λ p. record p { io_boost = false })
        (λ p q e. ap (λ (r : Process). record r { io_boost = false }) e)
        (started-Alike now next ps valid) in
    let base = record ps { current = some next } in
    let st = store next (λ p. record p { state = running }) base in
    let shed = λ (p : Process). record p { io_boost = false } in
    (
      a.current,
      record {
        here =
            a.entries next
            ∙ ap essence (store_self next shed st)
            ∙ ap (λ (p : Process). essence (shed p))
                (store_self next (λ p. record p { state = running }) base);
        others = λ k ne.
            a.entries k
            ∙ ap essence (store-other next shed st k ne)
            ∙ ap essence (store-other next (λ p. record p { state = running }) base k ne);
      },
    )

-- The process switched from is ready, and has the interrupted registers in its entry.
pub save_current-OnlyAt :
    (cur : ℕ) (frame : CpuState) (ps : Processes)
    → process_is_valid cur ps ≡ true
    → (ps.table cur).state ≡ running
    → OnlyAt cur (left frame) ps (save_current cur frame ps)
save_current-OnlyAt cur frame ps valid runs =
    let kept = store cur (saved frame) ps in
    let self = store_self cur (saved frame) ps in
    let still : process_is_valid cur kept ≡ true =
      valid_entry_lem cur kept ∙ ap (valid_entry cur) self ∙ sym (valid_entry_lem cur ps) ∙ valid in
    let test : is_executing (kept.table cur).state ≡ true =
      ap (λ (p : Process). is_executing p.state) self ∙ ap is_executing runs in
    let a = set_state-Alike cur ready kept still in
    let make_ready = λ (p : Process). record p { state = ready } in
    rw test (record {
      here =
          a.entries cur
          ∙ ap essence (store_self cur make_ready kept)
          ∙ ap (λ (p : Process). essence (make_ready p)) self;
      others = λ k ne.
          a.entries k
          ∙ ap essence (store-other cur make_ready kept k ne)
          ∙ ap essence (store-other cur (saved frame) ps k ne);
    })

-- A switch to `pid` from the machine as `scheduler_reschedule` leaves it just before.
abbrev pub switched : ℕ → ℕ → ℕ → ℕ → Machine → Machine
switched now kernel_cr3 cur pid m = switch_in now kernel_cr3 pid (record m {
  processes = save_current cur m.frame m.processes;
  scheduler = (pick_next cur m.processes (quantum_reset m).scheduler).1;
})

-- What `scheduler_reschedule` does: nothing but to write the statics, or a switch.
pub data Outcome (now kernel_cr3 cur : ℕ) (m : Machine) : Type 0 where
  stays :
      scheduler_reschedule now kernel_cr3 m
        ≡ record m { scheduler = (pick_next cur m.processes (quantum_reset m).scheduler).1 }
      → Outcome now kernel_cr3 cur m
  switches :
      (pid : ℕ)
      → (pick_next cur m.processes (quantum_reset m).scheduler).0 ≡ some pid
      → pid ≢ cur
      → scheduler_reschedule now kernel_cr3 m ≡ switched now kernel_cr3 cur pid m
      → Outcome now kernel_cr3 cur m

reschedule_from_reset :
    (now kernel_cr3 cur : ℕ) (m : Machine)
    → m.processes.current ≡ some cur
    → scheduler_reschedule now kernel_cr3 m ≡ reschedule_from now kernel_cr3 cur (quantum_reset m)
unfolding scheduler_reschedule
reschedule_from_reset now kernel_cr3 cur m here = rw here refl

reschedule_dispatch :
    (now kernel_cr3 cur : ℕ) (m : Machine) (next : Option ℕ)
    → m.processes.current ≡ some cur
    → (pick_next cur m.processes (quantum_reset m).scheduler).0 ≡ next
    → scheduler_reschedule now kernel_cr3 m
      ≡ dispatch now kernel_cr3 cur next
          (record m { scheduler = (pick_next cur m.processes (quantum_reset m).scheduler).1 })
unfolding reschedule_from
reschedule_dispatch now kernel_cr3 cur m next here picked =
    reschedule_from_reset now kernel_cr3 cur m here
    ∙ ap
        (λ o.
          dispatch now kernel_cr3 cur o
            (record m { scheduler = (pick_next cur m.processes (quantum_reset m).scheduler).1 }))
        picked

pub reschedule-switches :
    (now kernel_cr3 cur pid : ℕ) (m : Machine)
    → m.processes.current ≡ some cur
    → (pick_next cur m.processes (quantum_reset m).scheduler).0 ≡ some pid
    → pid ≢ cur
    → scheduler_reschedule now kernel_cr3 m ≡ switched now kernel_cr3 cur pid m
reschedule-switches now kernel_cr3 cur pid m here picked other =
    let done = reschedule_dispatch now kernel_cr3 cur m (some pid) here picked in
    rw (==_ne pid cur other) at done

pub reschedule_cases :
    (now kernel_cr3 cur : ℕ) (m : Machine)
    → m.processes.current ≡ some cur
    → Outcome now kernel_cr3 cur m
reschedule_cases now kernel_cr3 cur m here =
    elim (Option-cases (pick_next cur m.processes (quantum_reset m).scheduler).0) [
      | inl nobody ↦ stays (reschedule_dispatch now kernel_cr3 cur m none here nobody)
      | inr (pid, picked) ↦ elim (Bool-cases (pid == cur)) [
        | inl same ↦
            let done = reschedule_dispatch now kernel_cr3 cur m (some pid) here picked in
            stays (rw same at done)
        | inr other ↦
            let ne : pid ≢ cur = ground (arith, other) in
            switches pid picked ne (reschedule-switches now kernel_cr3 cur pid m here picked ne)
      ]
    ]

-- Whoever is picked while `cur` runs is still valid once `cur` is saved.
pub picked-valid :
    (cur pid : ℕ) (m : Machine)
    → process_is_valid cur m.processes ≡ true
    → (m.processes.table cur).state ≡ running
    → process_is_valid pid m.processes ≡ true
    → pid ≢ cur
    → process_is_valid pid (save_current cur m.frame m.processes) ≡ true
picked-valid cur pid m valid runs can other =
    let kept = save_current-OnlyAt cur m.frame m.processes valid runs in
    valid-alike pid (save_current cur m.frame m.processes) m.processes
      (kept.others pid (λ e. other (sym e)))
    ∙ can
