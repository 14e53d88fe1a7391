-- ===== src/Capability/State.antt =====
-- capability.c: the table, its handles, and the helpers `resolve`, `alloc_slot`, `free_slot` and
-- `is_expired`. Each brackets its stores with interrupts off, so it is one step here.
use quantum_os.Prelude.{
  ℕ, ◌+◌, ◌-◌, ◌*◌, ◌/◌, ◌%◌, ◌^◌, Bool, true, false, not, ◌&&◌, Option, none, some, ltb, leb, ◌==◌,
  if◌then◌else◌, update, find_first,
}
use quantum_os.Audit.{Ledger}

-- MAX_CAPABILITIES and CAP_ID_INVALID
abbrev pub max_capabilities : ℕ
max_capabilities = 1024

abbrev pub cap_id_invalid : ℕ
cap_id_invalid = 0

-- `cap_result_t`
pub data CapResult : Type 0 where
  success invalid_id denied expired revoked no_space invalid_arg not_owner escalation : CapResult
  not_revocable : CapResult

-- `capability_t`. The words are numbers, the flags Booleans.
pub record Capability : Type 0 where
  pub cap_id : ℕ
  pub owner_id : ℕ
  pub resource_type : ℕ
  pub resource_id : ℕ
  pub permissions : ℕ
  pub expiration : ℕ
  pub is_revocable : Bool
  pub is_inherited : Bool
  pub is_spawn_channel : Bool
  pub parent_cap : ℕ

-- `cap_slot_t`
pub record Slot : Type 0 where
  pub cap : Capability
  pub open cap use *
  pub generation : ℕ
  pub in_use : Bool

-- `cap_stats_t`
pub record Stats : Type 0 where
  pub created : ℕ
  pub derived : ℕ
  pub revoked : ℕ
  pub checks_passed : ℕ
  pub checks_denied : ℕ
  pub active : ℕ

-- The statics of capability.c, and the ledger that it writes to. The array `cap_table[1024]` is a
-- function of the index.
pub record System : Type 0 where
  pub table : ℕ → Slot
  pub hwm : ℕ
  pub stats : Stats
  pub initialized : Bool
  pub ledger : Ledger

-- The two fields of the handle do not overlap, so `|` adds them.
abbrev pub make_cap_id : ℕ → ℕ → ℕ
make_cap_id index generation = generation * 2 ^ 16 + (index + 1)

-- The index field, less one in 32 bits.
abbrev pub index_of : ℕ → ℕ
index_of id = (id % 2 ^ 16 + 2 ^ 32 - 1) % 2 ^ 32

abbrev pub generation_of : ℕ → ℕ
generation_of id = id / 2 ^ 16 % 2 ^ 16

-- The index of the slot in place of a pointer to it, and `none` for NULL.
unfoldable pub resolve : System → ℕ → Option ℕ
resolve s id =
    if id == cap_id_invalid
    then none
    else (if ltb (index_of id) max_capabilities
        then (if (s.table (index_of id)).in_use
              && (s.table (index_of id)).generation == generation_of id
            then some (index_of id)
            else none)
        else none)

-- A scan of the first `n` slots for a free one.
abbrev pub first_free : System → Option ℕ
first_free s = find_first max_capabilities 0 (λ i. not (s.table i).in_use)

-- The slot `i` claimed: its handle and the high-water mark are set.
unfoldable pub claim : System → ℕ → System
claim s i =
    let slot = s.table i in
    record s {
      table = update s.table i (record slot {
        cap = record (slot.cap) { cap_id = make_cap_id i slot.generation };
        in_use = true;
      });
      hwm = if ltb s.hwm (i + 1) then i + 1 else s.hwm;
    }

-- The index and handle of the slot that was free, and the state with it claimed.
unfoldable pub alloc_slot : System → Option (ℕ × ℕ × System)
alloc_slot s = elim (first_free s) [
  | none ↦ none
  | some i ↦ some (i, make_cap_id i (s.table i).generation, claim s i)
]

-- A slot as `free_slot` leaves it.
abbrev pub freed : Slot → Slot
freed slot = record slot { in_use = false; generation = (slot.generation + 1) % 2 ^ 16 }

unfoldable pub free_slot : ℕ → System → System
free_slot i s =
    let st = s.stats in
    record s {
      table = update s.table i (freed (s.table i));
      stats = record st { active = (st.active + 2 ^ 32 - 1) % 2 ^ 32 };
    }

unfoldable pub is_expired : ℕ → Capability → Bool
is_expired now cap = not (cap.expiration == 0) && leb cap.expiration now
