-- ===== src/Capability/Mint/Slots.antt =====
-- A slot claimed by `alloc_slot` and filled by `install`.
use quantum_os.Prelude.{
  ℕ, ◌+◌, ◌%◌, ◌^◌, ◌<◌, ◌≡◌, ◌⊎◌, inl, inr, true, false, not, none, some, refl, ap, ◌∙◌,
  if◌then◌else◌, ltb, ◌==◌, update, arith, find_first-some, find_first-none, Option-cases,
}
use quantum_os.Capability.State.{
  System, Slot, Capability, Stats, max_capabilities, make_cap_id, alloc_slot, claim, first_free,
}
use quantum_os.Capability.Create.{install}
use quantum_os.Capability.Invariant.{IsValid}
use quantum_os.Capability.Invariant.Count.{used, used-update, used-le, used_ext}
use quantum_os.Capability.Invariant.Grow.{HasParent, grow-IsTree, relabel-IsTree}

-- What an allocation says: the first free slot, its next handle, and the state with it claimed.
pub record Allocates (s : System) (i id : ℕ) (t : System) : Type 0 where
  pub in_range : i < max_capabilities
  pub was_free : (s.table i).in_use ≡ false
  pub handle : id ≡ make_cap_id i (s.table i).generation
  pub claimed : t ≡ claim s i

pub alloc_slot-cases :
    (s : System)
    → ((alloc_slot s ≡ none) × ((j : ℕ) → j < max_capabilities → (s.table j).in_use ≡ true))
      ⊎ ((i : ℕ) × (id : ℕ) × (t : System) × (alloc_slot s ≡ some (i, id, t)) × Allocates s i id t)
unfolding alloc_slot
alloc_slot-cases s = elim (Option-cases (first_free s)) [
  | inl full ↦ inl (
    rw (full, alloc_slot),
    λ j h. ground (
      arith,
      find_first-none max_capabilities 0 (λ k. not (s.table k).in_use) j full (omega arith)
          (omega arith),
    ),
  )
  | inr (i, found) ↦
      let (free, lo, hi) = find_first-some max_capabilities 0 (λ k. not (s.table k).in_use) found in
      inr (
        i,
        make_cap_id i (s.table i).generation,
        claim s i,
        rw (found, alloc_slot),
        record { in_range = omega arith; was_free = ground arith; handle = refl; claimed = refl },
      )
]

module _ (now : ℕ) (count : Stats → Stats) (i : ℕ) (cap : Capability) (s : System) (v : IsValid s)
    (in_range : i < max_capabilities) (was_free : (s.table i).in_use ≡ false)
    (handle : cap.cap_id ≡ make_cap_id i (s.table i).generation)
    (has : HasParent s.table cap.parent_cap)
    (counts : (st : Stats) → (count st).active ≡ (st.active + 1) % 2 ^ 32) where
  abbrev pub filled : System
  filled = install now count i cap (claim s i)

  -- The table changes at slot `i` only.
  pub filled_slot :
      (j : ℕ)
      → filled.table j ≡ (
          if i == j
          then (let slot = s.table i in record slot { cap = cap; in_use = true })
          else s.table j)
  unfolding install claim
  filled_slot j = ground arith

  used-filled : used max_capabilities filled.table ≡ used max_capabilities s.table + 1
  used-filled =
      let slot = s.table i in
      let new : Slot = record slot { cap = cap; in_use = true } in
      used_ext max_capabilities (update s.table i new) filled.table
        (λ j. ap (λ x. x.in_use) (filled_slot j))
      ∙ ground (arith, used-update max_capabilities s.table i new in_range)

  filled-active : filled.stats.active ≡ (s.stats.active + 1) % 2 ^ 32
  unfolding install claim
  filled-active = counts s.stats

  filled-hwm : filled.hwm ≡ (if ltb s.hwm (i + 1) then i + 1 else s.hwm)
  unfolding install claim
  filled-hwm = refl

  pub filled-IsValid : IsValid filled
  filled-IsValid = record {
    tree =
        relabel-IsTree filled.table (grow-IsTree v.tree i cap in_range was_free handle has)
          (λ j. ground (arith, filled_slot j));
    mark = ground (arith, v.mark, filled-hwm);
    below = λ j u. ground (arith, v.below j, filled-hwm, filled_slot j);
    active =
        omega (arith, filled-active, used-filled, v.active, used-le max_capabilities filled.table);
  }
