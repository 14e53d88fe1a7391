-- ===== src/Capability/Find.antt =====
-- capability.c: the three lookups by owner and resource, which scan below the high-water mark.
use quantum_os.Prelude.{
  ℕ, Bool, not, ◌&&◌, Option, none, some, ◌==◌, if◌then◌else◌, find_first, bit_and,
}
use quantum_os.Capability.State.{System, CapResult, success, denied, is_expired}

-- The tests of one round of the three loops; every test that fails is a `continue`.
unfoldable pub grants_type : ℕ → ℕ → ℕ → ℕ → System → ℕ → Bool
grants_type now pid rtype required s i =
    (s.table i).in_use
    && (((s.table i).owner_id == pid && (s.table i).resource_type == rtype)
        && (bit_and (s.table i).permissions required == required
            && not (is_expired now (s.table i).cap)))

unfoldable pub grants_resource : ℕ → ℕ → ℕ → ℕ → ℕ → System → ℕ → Bool
grants_resource now pid rtype required rid s i =
    (s.table i).in_use
    && (((s.table i).owner_id == pid
          && ((s.table i).resource_type == rtype && (s.table i).resource_id == rid))
        && (bit_and (s.table i).permissions required == required
            && not (is_expired now (s.table i).cap)))

-- The option is what is written through the out pointer, where one is passed.
unfoldable pub cap_find : ℕ → ℕ → ℕ → ℕ → Bool → System → CapResult × Option ℕ
cap_find now pid rtype required has_out s =
    elim (find_first s.hwm 0 (grants_type now pid rtype required s)) [
      | none ↦ (denied, none)
      | some i ↦ (success, if has_out then some (s.table i).resource_id else none)
    ]

unfoldable pub cap_find_resource : ℕ → ℕ → ℕ → ℕ → ℕ → System → CapResult
cap_find_resource now pid rtype required rid s =
    elim (find_first s.hwm 0 (grants_resource now pid rtype required rid s)) [
      | none ↦ denied
      | some i ↦ success
    ]

unfoldable pub cap_find_id : ℕ → ℕ → ℕ → ℕ → ℕ → Bool → System → CapResult × Option ℕ
cap_find_id now pid rtype required rid has_out s =
    elim (find_first s.hwm 0 (grants_resource now pid rtype required rid s)) [
      | none ↦ (denied, none)
      | some i ↦ (success, if has_out then some (s.table i).cap_id else none)
    ]
