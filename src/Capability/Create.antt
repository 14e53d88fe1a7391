-- ===== src/Capability/Create.antt =====
-- capability.c: `cap_init`, `cap_create` and `cap_derive`. `now` is the tick count; `has_out` says
-- that the caller passed a place for the handle, and what is written there is the option.
use quantum_os.Prelude.{
  ℕ, ◌+◌, ◌%◌, ◌^◌, Bool, true, false, not, ◌&&◌, ◌||◌, Option, none, some, ltb, leb, ◌==◌,
  if◌then◌else◌, update, bit_and, bit_not,
}
use quantum_os.Audit.{audit_grant}
use quantum_os.Capability.State.{
  System, Slot, Capability, Stats, CapResult, success, invalid_id, denied, expired, no_space,
  invalid_arg, not_owner, escalation, cap_id_invalid, resolve, alloc_slot, is_expired,
}

-- CAP_GRANT and CAP_RESOURCE_TYPE_COUNT
abbrev pub cap_grant : ℕ
cap_grant = 0x08

abbrev pub resource_type_count : ℕ
resource_type_count = 7

-- `cap_init`: memset of the table and the counters. The ledger is another component's.
abbrev pub empty_slot : Slot
empty_slot = record {
  cap = record {
    cap_id = 0;
    owner_id = 0;
    resource_type = 0;
    resource_id = 0;
    permissions = 0;
    expiration = 0;
    is_revocable = false;
    is_inherited = false;
    is_spawn_channel = false;
    parent_cap = 0;
  };
  generation = 0;
  in_use = false;
}

-- `hwm` is not reset by the source, so a second call would keep it.
unfoldable pub cap_init : System → CapResult × System
cap_init s = (
  success,
  record s {
    table = λ _. empty_slot;
    stats = record {
      created = 0;
      derived = 0;
      revoked = 0;
      checks_passed = 0;
      checks_denied = 0;
      active = 0;
    };
    initialized = true;
  },
)

abbrev pub count_created : Stats → Stats
count_created st = record st {
  created = (st.created + 1) % 2 ^ 64;
  active = (st.active + 1) % 2 ^ 32;
}

abbrev pub count_derived : Stats → Stats
count_derived st = record st {
  derived = (st.derived + 1) % 2 ^ 64;
  active = (st.active + 1) % 2 ^ 32;
}

-- The tail of `cap_create` and `cap_derive`: the claimed slot filled, counted and recorded.
unfoldable pub install : ℕ → (Stats → Stats) → ℕ → Capability → System → System
install now count i cap s =
    let slot = s.table i in
    record s {
      table = update s.table i (record slot { cap = cap });
      stats = count s.stats;
      ledger =
          audit_grant now cap.owner_id cap.resource_type cap.resource_id cap.permissions s.ledger;
    }

unfoldable pub cap_create : ℕ → ℕ → ℕ → ℕ → ℕ → ℕ → Bool → System → CapResult × Option ℕ × System
cap_create now owner rtype rid perms expiration has_out s =
    if not s.initialized || (not has_out || leb resource_type_count rtype)
    then (invalid_arg, none, s)
    else (elim (alloc_slot s) [
      | none ↦ (no_space, none, s)
      | some (i, id, t) ↦ (
        success,
        some id,
        install now count_created i
            (record {
              cap_id = id;
              owner_id = owner;
              resource_type = rtype;
              resource_id = rid;
              permissions = perms;
              expiration = expiration;
              is_revocable = true;
              is_inherited = false;
              is_spawn_channel = false;
              parent_cap = cap_id_invalid;
            })
            t,
      )
    ])

-- A child may never outlive its parent.
unfoldable pub clamp_expiration : ℕ → ℕ → ℕ
clamp_expiration parent wanted =
    if not (parent == 0) && (wanted == 0 || ltb parent wanted) then parent else wanted

-- The refusals of `cap_derive` once the parent is resolved, in their order.
unfoldable pub derive_refusal : ℕ → Capability → ℕ → ℕ → Option CapResult
derive_refusal now parent requester perms =
    if not (parent.owner_id == requester)
    then some not_owner
    else (if is_expired now parent
        then some expired
        else (if bit_and parent.permissions cap_grant == 0
            then some denied
            else (if not (bit_and perms (bit_not 32 parent.permissions) == 0)
                then some escalation
                else none)))

unfoldable pub derive_from : ℕ → ℕ → Capability → ℕ → ℕ → ℕ → System → CapResult × Option ℕ × System
derive_from now parent_id parent new_owner perms expiration s = elim (alloc_slot s) [
  | none ↦ (no_space, none, s)
  | some (i, id, t) ↦ (
    success,
    some id,
    install now count_derived i
        (record {
          cap_id = id;
          owner_id = new_owner;
          resource_type = parent.resource_type;
          resource_id = parent.resource_id;
          permissions = perms;
          expiration = clamp_expiration parent.expiration expiration;
          is_revocable = true;
          is_inherited = true;
          is_spawn_channel = false;
          parent_cap = parent_id;
        })
        t,
  )
]

unfoldable pub cap_derive : ℕ → ℕ → ℕ → ℕ → ℕ → ℕ → Bool → System → CapResult × Option ℕ × System
cap_derive now parent_id requester new_owner perms expiration has_out s =
    if not has_out then (invalid_arg, none, s) else (elim (resolve s parent_id) [
      | none ↦ (invalid_id, none, s)
      | some p ↦ elim (derive_refusal now (s.table p).cap requester perms) [
        | some refusal ↦ (refusal, none, s)
        | none ↦ derive_from now parent_id (s.table p).cap new_owner perms expiration s
      ]
    ])
