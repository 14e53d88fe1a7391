-- ===== src/Capability/Withdraw.antt =====
-- capability.c: `cap_revoke`. `now` is the tick count during the call.
use quantum_os.Prelude.{
  ℕ, zero, suc, Bool, true, false, not, ◌&&◌, Option, none, some, ◌==◌, if◌then◌else◌, bit_and,
  and_then,
}
use quantum_os.Audit.Kind
use quantum_os.Capability.State.{
  System, CapResult, success, invalid_id, not_owner, not_revocable, cap_id_invalid, resolve,
}
use quantum_os.Capability.Revoke.{revoke_children_of, release, cascade_fuel}

-- CAP_REVOKE
abbrev pub cap_revoke_bit : ℕ
cap_revoke_bit = 0x10

-- The walk up the ancestors, on fuel; `none` says that it ran out.
unfoldable pub authorized : ℕ → ℕ → ℕ → System → Option Bool
authorized zero requester ancestor_id s = none
authorized (suc fuel) requester ancestor_id s =
    if ancestor_id == cap_id_invalid then some false else (elim (resolve s ancestor_id) [
      | none ↦ some false
      | some a ↦
          let rest = authorized fuel requester (s.table a).parent_cap s in
          if (s.table a).owner_id == requester
            && not (bit_and (s.table a).permissions cap_revoke_bit == 0)
          then some true
          else rest
    ])

-- The cascade, then the slot itself.
unfoldable pub revoke_slot : ℕ → ℕ → ℕ → System → Option (CapResult × System)
revoke_slot now cap_id i s =
    and_then (revoke_children_of cascade_fuel now Kind.revoke cap_id s)
      (λ s'. some (success, release now Kind.revoke (s'.table i).owner_id i s'))

unfoldable pub cap_revoke : ℕ → ℕ → ℕ → System → Option (CapResult × System)
cap_revoke now cap_id requester s = elim (resolve s cap_id) [
  | none ↦ some (invalid_id, s)
  | some i ↦
      if not (s.table i).is_revocable
      then some (not_revocable, s)
      else (if (s.table i).owner_id == requester
          then revoke_slot now cap_id i s
          else (and_then (authorized cascade_fuel requester (s.table i).parent_cap s)
              (λ allowed. if allowed then revoke_slot now cap_id i s else some (not_owner, s))))
]
