-- ===== src/Capability/Check.antt =====
-- capability.c: `cap_check`, `cap_get` and `cap_mark_spawn_channel`.
use quantum_os.Prelude.{
  ℕ, ◌+◌, ◌%◌, ◌^◌, Bool, true, not, ◌||◌, Option, none, some, ◌==◌, if◌then◌else◌, update, bit_and,
}
use quantum_os.Capability.State.{
  System, Capability, CapResult, success, invalid_id, denied, expired, resolve, is_expired,
}

-- The verdict of `cap_check` on a resolved capability.
unfoldable pub check_verdict : ℕ → Capability → ℕ → ℕ → ℕ → ℕ → CapResult
check_verdict now cap pid rtype rid required =
    if not (cap.owner_id == pid)
      || (not (cap.resource_type == rtype) || not (cap.resource_id == rid))
    then denied
    else (if is_expired now cap
        then expired
        else (if not (bit_and cap.permissions required == required) then denied else success))

abbrev pub count_denied : System → System
count_denied s =
    let st = s.stats in
    record s { stats = record st { checks_denied = (st.checks_denied + 1) % 2 ^ 64 } }

abbrev pub count_passed : System → System
count_passed s =
    let st = s.stats in
    record s { stats = record st { checks_passed = (st.checks_passed + 1) % 2 ^ 64 } }

-- A verdict, counted.
abbrev pub counted : System → CapResult → CapResult × System
counted s success = (success, count_passed s)
counted s refusal = (refusal, count_denied s)

unfoldable pub cap_check : ℕ → ℕ → ℕ → ℕ → ℕ → ℕ → System → CapResult × System
cap_check now cap_id pid rtype rid required s = elim (resolve s cap_id) [
  | none ↦ counted s invalid_id
  | some i ↦ counted s (check_verdict now (s.table i).cap pid rtype rid required)
]

unfoldable pub cap_get : ℕ → Bool → System → CapResult × Option Capability
cap_get cap_id has_out s = elim (resolve s cap_id) [
  | none ↦ (invalid_id, none)
  | some i ↦ if has_out then (success, some (s.table i).cap) else (invalid_id, none)
]

unfoldable pub cap_mark_spawn_channel : ℕ → System → CapResult × System
cap_mark_spawn_channel cap_id s = elim (resolve s cap_id) [
  | none ↦ (invalid_id, s)
  | some i ↦
      let slot = s.table i in
      (
        success,
        record s {
          table =
              update s.table i
                (record slot { cap = record (slot.cap) { is_spawn_channel = true } });
        },
      )
]
