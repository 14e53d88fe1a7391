-- ===== src/Capability/Invariant/Tree.antt =====
-- The derivation tree: handles are right, parents are live, and no chain of parents is a cycle.
use quantum_os.Prelude.{
  ℕ, ◌+◌, ◌-◌, ◌^◌, ◌<◌, ◌≡◌, ◌≢◌, ◌⊎◌, inl, inr, true, if◌then◌else◌, ltb, update, arith,
}
use quantum_os.Capability.State.{Slot, max_capabilities, make_cap_id, freed}
use quantum_os.Capability.Invariant.Count.{used, used-update}

-- `rank` numbers the slots in use so that a parent comes before its children.
pub record IsTree (t : ℕ → Slot) : Type 0 where
  pub bounded : (i : ℕ) → (t i).in_use ≡ true → i < max_capabilities
  pub gens : (i : ℕ) → (t i).generation < 2 ^ 16
  pub ids : (i : ℕ) → (t i).in_use ≡ true → (t i).cap_id ≡ make_cap_id i (t i).generation
  pub parents :
      (i : ℕ)
      → (t i).in_use ≡ true
      → ((t i).parent_cap ≡ 0)
        ⊎ ((p : ℕ) × ((t p).in_use ≡ true) × ((t i).parent_cap ≡ (t p).cap_id))
  pub rank : ℕ → ℕ
  pub ranked : (i : ℕ) → (t i).in_use ≡ true → rank i < used max_capabilities t
  pub distinct : (i j : ℕ) → (t i).in_use ≡ true → (t j).in_use ≡ true → rank i ≡ rank j → i ≡ j
  pub older :
      (i p : ℕ)
      → (t i).in_use ≡ true
      → (t p).in_use ≡ true
      → (t i).parent_cap ≡ (t p).cap_id
      → rank p < rank i

-- Live handles are distinct.
pub ids_distinct :
    {t : ℕ → Slot}
    → IsTree t
    → (i j : ℕ) → (t i).in_use ≡ true
    → (t j).in_use ≡ true
    → (t i).cap_id ≡ (t j).cap_id
    → i ≡ j
ids_distinct {t} v i j a b e = omega (arith, v.ids i a, v.ids j b, v.bounded i a, v.bounded j b)

module _ {t : ℕ → Slot} (v : IsTree t) (i : ℕ) (live : (t i).in_use ≡ true)
    (leaf : (j : ℕ) → (t j).in_use ≡ true → (t j).parent_cap ≢ (t i).cap_id) where
  abbrev after_free : ℕ → Slot
  after_free = update t i (freed (t i))

  -- Ranks above the freed slot's move down by one.
  abbrev rank_after_free : ℕ → ℕ
  rank_after_free j = if ltb (v.rank i) (v.rank j) then v.rank j - 1 else v.rank j

  used-after_free : used max_capabilities after_free + 1 ≡ used max_capabilities t
  used-after_free =
      ground (arith, used-update max_capabilities t i (freed (t i)) (v.bounded i live))

  used_in_before : (j : ℕ) → (after_free j).in_use ≡ true → (j ≢ i) × ((t j).in_use ≡ true)
  used_in_before j u = ground arith

  kept_parent :
      (j : ℕ)
      → (after_free j).in_use ≡ true
      → ((after_free j).parent_cap ≡ 0)
        ⊎ ((p : ℕ) × ((after_free p).in_use ≡ true)
            × ((after_free j).parent_cap ≡ (after_free p).cap_id))
  kept_parent j u = elim (v.parents j (used_in_before j u).1) [
    | inl root ↦ inl (ground (arith, used_in_before j u))
    | inr (p, live_p, e) ↦
        inr (
          p,
          ground (arith, used_in_before j u, leaf j),
          ground (arith, used_in_before j u, leaf j),
        )
  ]

  -- To free a slot that has no children keeps the tree.
  pub free-IsTree : IsTree after_free
  free-IsTree = record {
    bounded = λ j u. ground (arith, v.bounded j);
    gens = λ j. ground (arith, v.gens j, v.gens i);
    ids = λ j u. ground (arith, v.ids j);
    parents = λ j u. kept_parent j u;
    rank = rank_after_free;
    ranked = λ j u. ground (arith, used-after_free, v.ranked j, v.ranked i, v.distinct i j);
    distinct = λ j k a b e. ground (arith, v.distinct j k, v.distinct i j, v.distinct i k);
    older = λ j p a b e. ground (arith, v.older j p, v.distinct i p, leaf j);
  }
