-- ===== src/Capability/Cascade/Below.antt =====
-- How the derivation order of a tree survives while slots are freed.
use quantum_os.Prelude.{ℕ, ◌<◌, ◌≡◌, Bool, true, sym, ◌∙◌, ap, arith}
use quantum_os.Capability.State.{Slot}
use quantum_os.Capability.Revoke.{is_child_of}
use quantum_os.Capability.Cascade.Shrink.{Below, hit, under, Shrinks, Shrinks-in_use}

-- A tree's ranks, which stay good while slots are freed.
pub record Ranked (rank : ℕ → ℕ) (bound : ℕ) (t : ℕ → Slot) : Type 0 where
  pub ranked : (i : ℕ) → (t i).in_use ≡ true → rank i < bound
  pub older :
      (i p : ℕ)
      → (t i).in_use ≡ true
      → (t p).in_use ≡ true
      → (t i).parent_cap ≡ (t p).cap_id
      → rank p < rank i

pub Shrinks-Ranked :
    {D : ℕ → Type 0} {rank : ℕ → ℕ} {bound : ℕ} (t u : ℕ → Slot)
    → Shrinks D t u
    → Ranked rank bound t
    → Ranked rank bound u
Shrinks-Ranked t u h r = record {
  ranked = λ i a. r.ranked i (live i a);
  older = λ i p a b e.
      r.older i p (live i a) (live p b)
        (sym (ap (λ x. x.parent_cap) (same i a)) ∙ e ∙ ap (λ x. x.cap_id) (same p b));
}
  where
    same : (i : ℕ) → (u i).in_use ≡ true → u i ≡ t i
    same = Shrinks-in_use t u h

    live : (i : ℕ) → (u i).in_use ≡ true → (t i).in_use ≡ true
    live i a = sym (ap (λ x. x.in_use) (same i a)) ∙ a

pub is_child_of-in_use :
    (parent : ℕ) (slot : Slot) → is_child_of parent slot ≡ true → slot.in_use ≡ true
unfolding is_child_of
is_child_of-in_use parent slot h = ground arith

pub is_child_of-parent :
    (parent : ℕ) (slot : Slot) → is_child_of parent slot ≡ true → slot.parent_cap ≡ parent
unfolding is_child_of
is_child_of-parent parent slot h = ground arith

pub Below-in_use :
    {t : ℕ → Slot} {match : Slot → Bool}
    → ((slot : Slot) → match slot ≡ true → slot.in_use ≡ true)
    → {j : ℕ} → Below t match j
    → (t j).in_use ≡ true
Below-in_use uses (hit m) = uses _ m
Below-in_use uses (under b live e) = live

-- What derives from a slot ranks above it.
pub Below-rank :
    {t : ℕ → Slot} {rank : ℕ → ℕ} {bound : ℕ} (i : ℕ)
    → Ranked rank bound t
    → (t i).in_use ≡ true
    → {j : ℕ} → Below t (is_child_of (t i).cap_id) j
    → rank i < rank j
Below-rank {t} i r live {j} (hit m) =
    r.older j i (is_child_of-in_use _ (t j) m) live (is_child_of-parent _ (t j) m)
Below-rank {t} {rank} i r live {j} (under {i = k} b u e) =
    let above : rank i < rank k = Below-rank i r live b in
    let next : rank k < rank j =
      r.older j k u (Below-in_use (is_child_of-in_use (t i).cap_id) b) e in
    omega arith

-- A child, in the smaller table, of a slot that lies below the matching ones.
Below-link :
    {D : ℕ → Type 0} {match : Slot → Bool} (t u : ℕ → Slot) (k j : ℕ)
    → Shrinks D t u
    → (u k).in_use ≡ true
    → (u j).in_use ≡ true
    → (u j).parent_cap ≡ (u k).cap_id
    → Below t match k
    → Below t match j
Below-link t u k j h live_k live_j e b =
    let same_j = Shrinks-in_use t u h j live_j in
    let same_k = Shrinks-in_use t u h k live_k in
    under b (sym (ap (λ x. x.in_use) same_j) ∙ live_j)
      (sym (ap (λ x. x.parent_cap) same_j) ∙ e ∙ ap (λ x. x.cap_id) same_k)

-- What derives from a slot that lies below the matching ones lies below them too.
pub Below-under :
    {D : ℕ → Type 0} {match : Slot → Bool} (t u : ℕ → Slot) (i : ℕ)
    → Shrinks D t u
    → (u i).in_use ≡ true
    → Below t match i
    → {j : ℕ} → Below u (is_child_of (u i).cap_id) j
    → Below t match j
Below-under t u i h live b {j} (hit m) =
    Below-link t u i j h live (is_child_of-in_use _ (u j) m) (is_child_of-parent _ (u j) m) b
Below-under t u i h live b {j} (under {i = k} c w e) =
    Below-link t u k j h (Below-in_use (is_child_of-in_use (u i).cap_id) c) w e
      (Below-under t u i h live b c)
