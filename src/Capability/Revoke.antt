-- ===== src/Capability/Revoke.antt =====
-- capability.c: the cascade `revoke_children_of`, and the loops that start it.
-- The recursion takes fuel, one unit for each level of derivation; `none` says that it ran out.
use quantum_os.Prelude.{
  ℕ, zero, suc, ◌+◌, ◌%◌, ◌^◌, Bool, ◌&&◌, Option, none, some, ◌==◌, if◌then◌else◌, and_then,
}
use quantum_os.Audit.{audit_record}
use quantum_os.Audit.Kind
use quantum_os.Audit.Ring.{event_ok}
use quantum_os.Capability.State.{System, Slot, max_capabilities, free_slot}

-- CAP_RESOURCE_IPC
abbrev pub resource_ipc : ℕ
resource_ipc = 1

-- The record fields of slot `i` captured, the slot freed, the revocation counted and recorded under
-- `owner`.
unfoldable pub release : ℕ → ℕ → ℕ → ℕ → System → System
unfolding free_slot
release now kind owner i s =
    let slot = s.table i in
    let rest = free_slot i s in
    let st = rest.stats in
    record rest {
      stats = record st { revoked = (st.revoked + 1) % 2 ^ 64 };
      ledger =
          audit_record now
            (event_ok kind owner slot.resource_type slot.resource_id slot.permissions) rest.ledger;
    }

-- for (k = i; k < i + n; k++) { if (match(slot k)) { cascade from its handle; release k } }, the
-- shape of the three loops. `cascade` is the call of `revoke_children_of`.
unfoldable pub sweep_step :
    (Slot → Bool) → (ℕ → System → Option System) → ℕ → ℕ → ℕ → System → Option System
sweep_step match cascade now kind i s =
    if match (s.table i)
    then and_then (cascade (s.table i).cap_id s)
        (λ s'. some (release now kind (s'.table i).owner_id i s'))
    else some s

unfoldable pub sweep :
    (Slot → Bool) → (ℕ → System → Option System) → ℕ → ℕ → ℕ → ℕ → System → Option System
sweep match cascade now kind zero i s = some s
sweep match cascade now kind (suc n) i s =
    and_then (sweep_step match cascade now kind i s)
      (λ s'. sweep match cascade now kind n (i + 1) s')

-- The tests of the three loops.
unfoldable pub is_child_of : ℕ → Slot → Bool
is_child_of parent slot = slot.in_use && slot.parent_cap == parent

unfoldable pub is_owned_by : ℕ → Slot → Bool
is_owned_by pid slot = slot.in_use && slot.owner_id == pid

unfoldable pub is_ipc_to : ℕ → Slot → Bool
is_ipc_to pid slot = slot.in_use && (slot.resource_type == resource_ipc && slot.resource_id == pid)

unfoldable pub revoke_children_of : ℕ → ℕ → ℕ → ℕ → System → Option System
revoke_children_of zero now kind parent s = none
revoke_children_of (suc fuel) now kind parent s =
    sweep (is_child_of parent) (λ child s'. revoke_children_of fuel now kind child s') now kind
      max_capabilities 0 s

-- More levels than a chain of distinct slots can have.
abbrev pub cascade_fuel : ℕ
cascade_fuel = max_capabilities + 1

unfoldable pub cap_revoke_all_for_process : ℕ → ℕ → System → Option System
cap_revoke_all_for_process now pid s =
    sweep (is_owned_by pid) (revoke_children_of cascade_fuel now Kind.reap) now Kind.reap
      max_capabilities 0 s

unfoldable pub cap_revoke_ipc_targets : ℕ → ℕ → System → Option System
cap_revoke_ipc_targets now dead_pid s =
    sweep (is_ipc_to dead_pid) (revoke_children_of cascade_fuel now Kind.unlink) now Kind.unlink
      max_capabilities 0 s
