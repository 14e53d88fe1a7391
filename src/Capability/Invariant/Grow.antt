-- ===== src/Capability/Invariant/Grow.antt =====
-- A slot claimed and filled keeps the derivation tree; so does a change of other fields.
use quantum_os.Prelude.{
  ℕ, ◌+◌, ◌<◌, ◌≡◌, ◌≢◌, ◌⊎◌, inl, inr, true, false, if◌then◌else◌, ◌==◌, update, arith, sym, ◌∙◌,
  subst,
}
use quantum_os.Capability.State.{Slot, Capability, max_capabilities, make_cap_id}
use quantum_os.Capability.Invariant.Count.{used, used-update, used_ext}
use quantum_os.Capability.Invariant.Tree.{IsTree}

-- A live slot that a parent field names, or none.
abbrev pub HasParent : (ℕ → Slot) → ℕ → Type 0
HasParent t parent = (parent ≡ 0) ⊎ ((p : ℕ) × ((t p).in_use ≡ true) × (parent ≡ (t p).cap_id))

module _ {t : ℕ → Slot} (v : IsTree t) (i : ℕ) (cap : Capability) (in_range : i < max_capabilities)
    (free : (t i).in_use ≡ false) (id : cap.cap_id ≡ make_cap_id i (t i).generation)
    (has : HasParent t cap.parent_cap) where
  abbrev grown : ℕ → Slot
  grown = let slot = t i in update t i (record slot { cap = cap; in_use = true })

  abbrev rank_grown : ℕ → ℕ
  rank_grown j = if i == j then used max_capabilities t else v.rank j

  used-grown : used max_capabilities grown ≡ used max_capabilities t + 1
  used-grown =
      let slot = t i in
      ground (
        arith,
        used-update max_capabilities t i (record slot { cap = cap; in_use = true }) in_range,
      )

  grown_old : (j : ℕ) → (t j).in_use ≡ true → ◌≡◌ {A = Slot} (grown j) (t j)
  grown_old j u = ground arith

  old_or_new : (j : ℕ) → (grown j).in_use ≡ true → (i ≡ j) ⊎ ((i ≢ j) × ((t j).in_use ≡ true))
  old_or_new j u = ground arith

  lift_parent : (parent : ℕ) → HasParent t parent → HasParent grown parent
  lift_parent parent (inl root) = inl root
  lift_parent parent (inr (p, live, e)) =
      inr (p, ground (arith, grown_old p live), ground (arith, grown_old p live))

  grown_parents : (j : ℕ) → (grown j).in_use ≡ true → HasParent grown (grown j).parent_cap
  grown_parents j u = elim (old_or_new j u) [
    | inl new ↦
        let e : (grown j).parent_cap ≡ cap.parent_cap = ground arith in
        lift_parent (grown j).parent_cap (subst (HasParent t) (sym e) has)
    | inr (other, old) ↦
        let e : (grown j).parent_cap ≡ (t j).parent_cap = ground (arith, grown_old j old) in
        lift_parent (grown j).parent_cap (subst (HasParent t) (sym e) (v.parents j old))
  ]

  -- No slot in use names the new handle as its parent, nor does the new slot itself.
  new_id_unused : (parent : ℕ) → HasParent t parent → parent ≢ make_cap_id i (t i).generation
  new_id_unused parent (inl root) e = absurd (omega arith)
  new_id_unused parent (inr (p, live, q)) e =
      let same : p ≡ i = omega (arith, v.ids p live, v.bounded p live) in ground (arith, same)

  grown_older :
      (j p : ℕ)
      → (grown j).in_use ≡ true
      → (grown p).in_use ≡ true
      → (grown j).parent_cap ≡ (grown p).cap_id
      → rank_grown p < rank_grown j
  grown_older j p a b e = elim (old_or_new j a) [
    | inl new_j ↦ ground (arith, new_id_unused cap.parent_cap has, v.ranked p)
    | inr (other, old_j) ↦
        ground (
          arith,
          new_id_unused (t j).parent_cap (v.parents j old_j),
          v.older j p,
          grown_old j old_j,
        )
  ]

  pub grow-IsTree : IsTree grown
  grow-IsTree = record {
    bounded = λ j u. ground (arith, v.bounded j);
    gens = λ j. ground (arith, v.gens j, v.gens i);
    ids = λ j u. ground (arith, v.ids j);
    parents = grown_parents;
    rank = rank_grown;
    ranked = λ j u. ground (arith, used-grown, v.ranked j);
    distinct = λ j k a b e. ground (arith, v.distinct j k, v.ranked j, v.ranked k);
    older = grown_older;
  }

-- A change that keeps use, generations, handles and parents keeps the tree.
pub relabel-IsTree :
    {t : ℕ → Slot} (u : ℕ → Slot)
    → IsTree t
    → ((i : ℕ)
        → ((u i).in_use ≡ (t i).in_use)
          × ((u i).generation ≡ (t i).generation)
          × ((u i).cap_id ≡ (t i).cap_id)
          × ((u i).parent_cap ≡ (t i).parent_cap))
    → IsTree u
relabel-IsTree {t} u v h = record {
  bounded = λ i a. v.bounded i (sym (h i).0 ∙ a);
  gens = λ i. ground (arith, h i, v.gens i);
  ids = λ i a. ground (arith, h i, v.ids i);
  parents = λ i a.
      relabelled (u i).parent_cap
        (subst (HasParent t) (sym (h i).3) (v.parents i (sym (h i).0 ∙ a)));
  rank = v.rank;
  ranked = λ i a. ground (arith, h i, v.ranked i, used_ext max_capabilities t u (λ k. (h k).0));
  distinct = λ i j a b. v.distinct i j (sym (h i).0 ∙ a) (sym (h j).0 ∙ b);
  older = λ i p a b e. ground (arith, h i, h p, v.older i p);
}
  where
    relabelled : (parent : ℕ) → HasParent t parent → HasParent u parent
    relabelled parent (inl root) = inl root
    relabelled parent (inr (p, live, e)) = inr (p, (h p).0 ∙ live, e ∙ sym (h p).2)
