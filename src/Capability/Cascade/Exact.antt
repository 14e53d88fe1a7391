-- ===== src/Capability/Cascade/Exact.antt =====
-- What a loop leaves, said exactly.
use quantum_os.Prelude.{ℕ, ◌≡◌, Bool, true, false, inl, inr, ◌⊎◌, sym, ◌∙◌, ap, arith}
use quantum_os.Capability.State.{System, Slot, freed}
use quantum_os.Capability.Invariant.{IsValid}
use quantum_os.Capability.Invariant.Tree.{IsTree, ids_distinct}
use quantum_os.Capability.Cascade.Shrink.{Below, hit, under, Shrinks-in_use}
use quantum_os.Capability.Cascade.Below.{Below-in_use}
use quantum_os.Capability.Cascade.Sweep.{Swept}

-- The slots that match and all that derive from them are freed, every other slot is untouched,
-- nothing that matches is left, and the state stays valid.
pub record RevokesExactly (match : Slot → Bool) (s s' : System) : Type 0 where
  pub valid : IsValid s'
  pub slots :
      (j : ℕ)
      → (Below s.table match j × (s'.table j ≡ freed (s.table j)))
        ⊎ ((¬ Below s.table match j) × (s'.table j ≡ s.table j))
  pub none_left : (j : ℕ) → match (s'.table j) ≡ false
  pub initialized_kept : s'.initialized ≡ s.initialized

module _ (match : Slot → Bool) (uses : (slot : Slot) → match slot ≡ true → slot.in_use ≡ true)
    (s s' : System) (v : IsTree s.table) (sw : Swept match s s') where
  -- A slot in use whose parent was freed would have no live parent.
  no_orphan :
      (i j : ℕ)
      → (s.table i).in_use ≡ true
      → s'.table i ≡ freed (s.table i)
      → (s.table j).parent_cap ≡ (s.table i).cap_id
      → (s'.table j).in_use ≡ true
      → ⊥
  no_orphan i j live gone e left =
      let same = Shrinks-in_use s.table s'.table sw.slots j left in
      elim (sw.valid.tree.parents j left) [
        | inl root ↦ omega (arith, v.ids i live, ap (λ x. x.parent_cap) same)
        | inr (p, live_p, q) ↦
            let same_p = Shrinks-in_use s.table s'.table sw.slots p live_p in
            let was : (s.table p).in_use ≡ true = sym (ap (λ x. x.in_use) same_p) ∙ live_p in
            let id : (s.table p).cap_id ≡ (s.table i).cap_id =
              sym (ap (λ x. x.cap_id) same_p) ∙ sym q ∙ ap (λ x. x.parent_cap) same ∙ e in
            let one : p ≡ i = ids_distinct v p i was live id in ground (arith, one, gone)
      ]

  freed-Below : {j : ℕ} → Below s.table match j → s'.table j ≡ freed (s.table j)
  freed-Below {j} (hit m) = elim (sw.slots j) [
    | inl same ↦ absurd (ground (arith, sw.none_left j, m, same))
    | inr (b, was, gone) ↦ gone
  ]
  freed-Below {j} (under {i = i} b live e) = elim (sw.slots j) [
    | inl same ↦
        absurd
          (no_orphan i j (Below-in_use uses b) (freed-Below b) e (ap (λ x. x.in_use) same ∙ live))
    | inr (c, was, gone) ↦ gone
  ]

  pub Swept-exactly : RevokesExactly match s s'
  Swept-exactly = record {
    valid = sw.valid;
    slots = λ j. elim (sw.slots j) [
      | inl same ↦ inr (λ b. ground (arith, freed-Below b, same, Below-in_use uses b), same)
      | inr (b, was, gone) ↦ inl (b, gone)
    ];
    none_left = sw.none_left;
    initialized_kept = sw.initialized_kept;
  }
