-- ===== src/Capability/Reap.antt =====
-- What dies with a process: its own capabilities, and the IPC capabilities that name it.
use quantum_os.Prelude.{
  ℕ, ◌≡◌, ◌≢◌, true, false, none, some, inl, inr, arith, Option-cases, find_first, find_first-some,
  ◌∙◌, ap, sym,
}
use quantum_os.Capability.State.{System, Slot, success, denied}
use quantum_os.Capability.Revoke.{
  is_owned_by, is_ipc_to, cap_revoke_all_for_process, cap_revoke_ipc_targets,
}
use quantum_os.Capability.Find.{grants_type, cap_find}
use quantum_os.Capability.Check.{cap_check}
use quantum_os.Capability.Invariant.{IsValid}
use quantum_os.Capability.Handles.{resolve-some}
use quantum_os.Capability.Authority.Grants.{cap_check_iff}
use quantum_os.Capability.Cascade.Exact.{RevokesExactly, Swept-exactly}
use quantum_os.Capability.Cascade.Total.{revoke_all-Swept, revoke_ipc_targets-Swept}

is_owned_by-in_use : (pid : ℕ) (slot : Slot) → is_owned_by pid slot ≡ true → slot.in_use ≡ true
unfolding is_owned_by
is_owned_by-in_use pid slot h = ground arith

is_ipc_to-in_use : (pid : ℕ) (slot : Slot) → is_ipc_to pid slot ≡ true → slot.in_use ≡ true
unfolding is_ipc_to
is_ipc_to-in_use pid slot h = ground arith

-- In a valid state `cap_revoke_all_for_process` returns, frees exactly the capabilities that the
-- process owns and those derived from them in any number of steps, leaves every other slot as it
-- was, and leaves a valid state in which the process owns none.
pub revoke_all_exactly :
    (now pid : ℕ) (s : System)
    → IsValid s
    → (s' : System) × (cap_revoke_all_for_process now pid s ≡ some s')
      × RevokesExactly (is_owned_by pid) s s'
revoke_all_exactly now pid s v =
    let (s', e, sw) = revoke_all-Swept now pid s v in
    (s', e, Swept-exactly (is_owned_by pid) (is_owned_by-in_use pid) s s' v.tree sw)

-- In a valid state `cap_revoke_ipc_targets` returns, frees exactly the IPC capabilities that name the
-- dead process and those derived from them, leaves every other slot as it was (a capability of
-- another class on the same number included), and leaves a valid state.
pub revoke_ipc_targets_exactly :
    (now dead_pid : ℕ) (s : System)
    → IsValid s
    → (s' : System) × (cap_revoke_ipc_targets now dead_pid s ≡ some s')
      × RevokesExactly (is_ipc_to dead_pid) s s'
revoke_ipc_targets_exactly now pid s v =
    let (s', e, sw) = revoke_ipc_targets-Swept now pid s v in
    (s', e, Swept-exactly (is_ipc_to pid) (is_ipc_to-in_use pid) s s' v.tree sw)

module _ (pid : ℕ) (s : System) (none_owned : (j : ℕ) → is_owned_by pid (s.table j) ≡ false) where
  not_owner_of : (j : ℕ) → (s.table j).in_use ≡ true → (s.table j).owner_id ≢ pid
  unfolding is_owned_by
  not_owner_of j live e = ground (arith, none_owned j)

  find_denied : (now rtype required : ℕ) → cap_find now pid rtype required true s ≡ (denied, none)
  unfolding cap_find grants_type
  find_denied now rtype required =
      elim (Option-cases (find_first s.hwm 0 (grants_type now pid rtype required s))) [
        | inl missed ↦ ground (arith, missed)
        | inr (i, e) ↦ absurd (
            ground (
              arith,
              find_first-some s.hwm 0 (grants_type now pid rtype required s) {k = i},
              not_owner_of i,
              e,
            ))
      ]

  check_refused :
      (now id rtype rid required : ℕ) → (cap_check now id pid rtype rid required s).0 ≢ success
  check_refused now id rtype rid required h =
      let (i, e, g) = (cap_check_iff now id pid rtype rid required s).0 h in
      not_owner_of i (resolve-some s id i e).2 g.owner

-- After `cap_revoke_all_for_process` a process that reuses the number starts with no authority:
-- `cap_check` fails for every handle, and `cap_find` is denied, at any tick.
pub recycled_pid_has_nothing :
    (now later pid id rtype rid required : ℕ) (s : System) {s' : System}
    → IsValid s
    → cap_revoke_all_for_process now pid s ≡ some s'
    → ((cap_check later id pid rtype rid required s').0 ≢ success)
      × (cap_find later pid rtype required true s' ≡ (denied, none))
recycled_pid_has_nothing now later pid id rtype rid required s {s'} v e =
    let (t, e', x) = revoke_all_exactly now pid s v in
    let same : t ≡ s' = ground (arith, e') in
    let clear : (j : ℕ) → is_owned_by pid (s'.table j) ≡ false =
      λ j. ap (λ (w : System). is_owned_by pid (w.table j)) (sym same) ∙ x.none_left j in
    (
      check_refused pid s' clear later id rtype rid required,
      find_denied pid s' clear later rtype required,
    )
