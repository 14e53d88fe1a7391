-- ===== src/Capability/Mint/Create.antt =====
-- `cap_create`: full, or a new root capability and nothing else.
use quantum_os.Prelude.{
  ℕ, ◌+◌, ◌%◌, ◌^◌, ◌==◌, ◌<◌, ◌≡◌, ◌≢◌, ◌⊎◌, inl, inr, true, false, none, some, refl, ap, subst,
  arith, if◌then◌else◌,
}
use quantum_os.Capability.State.{
  System, Capability, success, no_space, max_capabilities, make_cap_id, resolve, cap_id_invalid,
  Stats, claim,
}
use quantum_os.Capability.Create.{cap_create, resource_type_count, install, count_created}
use quantum_os.Capability.Invariant.{IsValid}
use quantum_os.Capability.Invariant.Grow.{HasParent}
use quantum_os.Capability.Handles.{resolve-live}
use quantum_os.Capability.Mint.Slots.{alloc_slot-cases, filled_slot, filled-IsValid}

-- One free slot now holds the capability, its handle resolves, every other slot is as before.
pub record Minted (s s' : System) (cap : Capability) (i : ℕ) : Type 0 where
  pub valid : IsValid s'
  pub was_free : (s.table i).in_use ≡ false
  pub live : (s'.table i).in_use ≡ true
  pub holds : (s'.table i).cap ≡ cap
  pub resolves : resolve s' cap.cap_id ≡ some i
  pub others : (j : ℕ) → i ≢ j → s'.table j ≡ s.table j

-- Slot `i` of the full table.
abbrev pub IsFull : System → Type 0
IsFull s = (j : ℕ) → j < max_capabilities → (s.table j).in_use ≡ true

pub filled-Minted :
    (now : ℕ) (count : Stats → Stats) (i : ℕ) (cap : Capability) (s : System)
    → IsValid s
    → i < max_capabilities
    → (s.table i).in_use ≡ false
    → cap.cap_id ≡ make_cap_id i (s.table i).generation
    → HasParent s.table cap.parent_cap
    → ((st : Stats) → (count st).active ≡ (st.active + 1) % 2 ^ 32)
    → Minted s (install now count i cap (claim s i)) cap i
filled-Minted now count i cap s v lt free handle has counts = record {
  valid = valid;
  was_free = free;
  live = live;
  holds = holds;
  resolves =
      subst (λ k. resolve rest k ≡ some i) (ap (λ x. x.cap_id) holds)
        (resolve-live rest i valid.tree live);
  others = λ j ne. ground (arith, slot j);
}
  where
    rest : System
    rest = install now count i cap (claim s i)

    valid : IsValid rest
    valid = filled-IsValid now count i cap s v lt free handle has counts

    slot :
        (j : ℕ)
        → rest.table j ≡ (
            if i == j
            then (let slot = s.table i in record slot { cap = cap; in_use = true })
            else s.table j)
    slot = filled_slot now count i cap s v lt free handle has counts

    live : (rest.table i).in_use ≡ true
    live = ground (arith, slot i)

    holds : (rest.table i).cap ≡ cap
    holds = ground (arith, slot i)

-- The capability that `cap_create` writes.
abbrev pub root_cap : ℕ → ℕ → ℕ → ℕ → ℕ → ℕ → Capability
root_cap id owner rtype rid perms expiration = record {
  cap_id = id;
  owner_id = owner;
  resource_type = rtype;
  resource_id = rid;
  permissions = perms;
  expiration = expiration;
  is_revocable = true;
  is_inherited = false;
  is_spawn_channel = false;
  parent_cap = cap_id_invalid;
}

-- In a valid initialized state and for a resource class, `cap_create` with a place for the handle
-- refuses only when all 1024 slots are in use, and then changes nothing; else it mints the
-- capability that was asked for in one free slot.
pub cap_create_lem :
    (now owner rtype rid perms expiration : ℕ) (s : System)
    → IsValid s
    → s.initialized ≡ true
    → rtype < resource_type_count
    → (IsFull s × (cap_create now owner rtype rid perms expiration true s ≡ (no_space, none, s)))
      ⊎ ((i : ℕ) × (id : ℕ) × (s' : System) × (cap_create now owner rtype rid perms expiration true
              s
            ≡ (success, some id, s'))
          × Minted s s' (root_cap id owner rtype rid perms expiration) i)
unfolding cap_create
cap_create_lem now owner rtype rid perms expiration s v on lt = elim (alloc_slot-cases s) [
  | inl (none_free, full) ↦ inl (full, ground (arith, none_free))
  | inr (i, id, t, e, a) ↦
      let cap = root_cap id owner rtype rid perms expiration in
      inr (
        i,
        id,
        install now count_created i cap (claim s i),
        ground (arith, e, a.claimed),
        filled-Minted now count_created i cap s v a.in_range a.was_free a.handle (inl refl)
            (λ st. refl),
      )
]
