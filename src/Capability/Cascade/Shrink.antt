-- ===== src/Capability/Cascade/Shrink.antt =====
-- How a table may change while capabilities are revoked.
use quantum_os.Prelude.{ℕ, ◌≡◌, ◌⊎◌, Bool, true, refl, inl, inr, sym, ◌∙◌, subst, arith}
use quantum_os.Capability.State.{Slot, freed}

-- The slots of `t` that match, and those derived from such a slot in any number of steps.
pub data Below (t : ℕ → Slot) (match : Slot → Bool) : ℕ → Type 0 where
  hit : {j : ℕ} → match (t j) ≡ true → Below t match j
  under :
      {i j : ℕ}
      → Below t match i
      → (t j).in_use ≡ true
      → (t j).parent_cap ≡ (t i).cap_id
      → Below t match j

-- Every slot is as it was, or was in use, lies in `D` and is freed.
abbrev pub Shrinks : (ℕ → Type 0) → (ℕ → Slot) → (ℕ → Slot) → Type 0
Shrinks D t u = (j : ℕ) → (u j ≡ t j) ⊎ (D j × ((t j).in_use ≡ true) × (u j ≡ freed (t j)))

-- A slot still in use has not changed.
pub Shrinks-in_use :
    {D : ℕ → Type 0} (t u : ℕ → Slot) → Shrinks D t u → (j : ℕ) → (u j).in_use ≡ true → u j ≡ t j
Shrinks-in_use t u h j live = elim (h j) [ inl same ↦ same | inr (d, was, e) ↦ ground (arith, e) ]

pub Shrinks-trans :
    {D E : ℕ → Type 0} (t u w : ℕ → Slot)
    → Shrinks D t u
    → Shrinks E u w
    → ((j : ℕ) → (u j).in_use ≡ true → E j → D j)
    → Shrinks D t w
Shrinks-trans {D} t u w h k wider j = elim (k j) [
  | inl same ↦
      subst (λ (x : Slot). (x ≡ t j) ⊎ (D j × ((t j).in_use ≡ true) × (x ≡ freed (t j)))) (sym same)
        (h j)
  | inr (d, was, e) ↦
      let before = Shrinks-in_use t u h j was in
      inr (
        wider j was d,
        subst (λ (x : Slot). x.in_use ≡ true) before was,
        e ∙ subst (λ (x : Slot). freed (u j) ≡ freed x) before refl,
      )
]

-- A test that only slots in use pass is passed by no more slots afterwards.
pub Shrinks-match :
    {D : ℕ → Type 0} (t u : ℕ → Slot) (match : Slot → Bool)
    → ((slot : Slot) → match slot ≡ true → slot.in_use ≡ true)
    → Shrinks D t u
    → (j : ℕ) → match (u j) ≡ true
    → match (t j) ≡ true
Shrinks-match t u match uses h j m =
    subst (λ (x : Slot). match x ≡ true) (Shrinks-in_use t u h j (uses (u j) m)) m
