-- ===== src/Prelude/Table.antt =====
-- Fixed C arrays as functions of the index: update, the first index that passes a test, a count.
use Prim.Native.Nat.{ℕ, zero, suc, ◌+◌, ◌≤◌, ◌<◌}
use mathlib.Core.Path.{◌≡◌, refl, ◌∙◌, ap}
use native.Mathlib.Nat.{add-zero}
use mathlib.Core.Logic.{◌≢◌, inl, inr}
use mathlib.Core.Bool.{Bool, true, false}
use mathlib.Core.Option.{Option, none, some}
use native.Mathlib.Omega.{arith}
use quantum_os.Prelude.Tests.{◌==◌, leb, if◌then◌else◌, Bool-cases, Option-cases}

module _ {ℓ} {A : Type ℓ} where
  -- `t[i] = a`
  abbrev pub update : (ℕ → A) → ℕ → A → ℕ → A
  update t i a j = if i == j then a else t j

  pub update_self : (t : ℕ → A) (i : ℕ) (a : A) → update t i a i ≡ a
  update_self t i a = ground arith

  pub update_ne : (t : ℕ → A) (i j : ℕ) (a : A) → i ≢ j → update t i a j ≡ t j
  update_ne t i j a h = ground arith

-- for (k = i; k < i + n; k++) if (p(k)) return k;
unfoldable pub find_first : ℕ → ℕ → (ℕ → Bool) → Option ℕ
find_first zero i p = none
find_first (suc n) i p = let rest = find_first n (i + 1) p in if p i then some i else rest

pub find_first-some :
    (n i : ℕ) (p : ℕ → Bool) {k : ℕ}
    → find_first n i p ≡ some k
    → (p k ≡ true) × (i ≤ k) × (k < i + n)
unfolding find_first
find_first-some zero i p e = ground arith
find_first-some (suc n) i p {k} e = elim (Bool-cases (p i)) [
  | inl hit ↦ ground (arith, hit)
  | inr miss ↦ ground (arith, miss, find_first-some n (i + 1) p {k = k})
]

-- What is found is the first.
pub find_first-least :
    (n i : ℕ) (p : ℕ → Bool) {k : ℕ} (j : ℕ)
    → find_first n i p ≡ some k
    → i ≤ j
    → j < k
    → p j ≡ false
unfolding find_first
find_first-least zero i p j e lo hi = ground arith
find_first-least (suc n) i p {k} j e lo hi = elim (Bool-cases (p i)) [
  | inl hit ↦ ground (arith, hit)
  | inr miss ↦ elim (Bool-cases (i == j)) [
    | inl same ↦ ground (arith, miss)
    | inr other ↦ ground (arith, miss, find_first-least n (i + 1) p {k = k} j)
  ]
]

pub find_first-none :
    (n i : ℕ) (p : ℕ → Bool) (j : ℕ) → find_first n i p ≡ none → i ≤ j → j < i + n → p j ≡ false
unfolding find_first
find_first-none zero i p j e lo hi = ground arith
find_first-none (suc n) i p j e lo hi = elim (Bool-cases (p i)) [
  | inl hit ↦ ground (arith, hit)
  | inr miss ↦ elim (Bool-cases (i == j)) [
    | inl same ↦ ground (arith, miss)
    | inr other ↦ ground (arith, miss, find_first-none n (i + 1) p j)
  ]
]

pub find_first_ext :
    (n i : ℕ) (p q : ℕ → Bool)
    → ((j : ℕ) → i ≤ j → j < i + n → p j ≡ q j)
    → find_first n i p ≡ find_first n i q
unfolding find_first
find_first_ext zero i p q h = refl
find_first_ext (suc n) i p q h =
    let rest = find_first_ext n (i + 1) p q (λ j lo hi. h j (omega arith) (omega arith)) in
    let here = h i (omega arith) (omega arith) in rw (rest, here)

find_first_step :
    (n i : ℕ) (p : ℕ → Bool)
    → find_first (suc n) i p ≡ (if p i then some i else find_first n (i + 1) p)
unfolding find_first
find_first_step n i p = refl

abbrev pub or_at : Option ℕ → (ℕ → Bool) → ℕ → Option ℕ
or_at (some k) p i = some k
or_at none p i = if p i then some i else none

-- One more round looks at one more index, last.
pub find_first-suc :
    (n i : ℕ) (p : ℕ → Bool) → find_first (suc n) i p ≡ or_at (find_first n i p) p (i + n)
find_first-suc zero i p = unfold find_first in rw add-zero
find_first-suc (suc n) i p = elim (Bool-cases (p i)) [
  | inl hit ↦ rw (find_first_step (suc n) i p, find_first_step n i p, hit)
  | inr miss ↦
      rw (find_first_step (suc n) i p, find_first_step n i p, miss)
        (find_first-suc n (i + 1) p ∙ ap (or_at (find_first n (i + 1) p) p) (omega arith))
]

-- An index that passes, with none before it that does, is the one found.
pub find_first-at :
    (n i : ℕ) (p : ℕ → Bool) (k : ℕ)
    → p k ≡ true
    → i ≤ k
    → k < i + n
    → ((j : ℕ) → i ≤ j → j < k → p j ≡ false)
    → find_first n i p ≡ some k
find_first-at n i p k hit lo hi before = elim (Option-cases (find_first n i p)) [
  | inl missed ↦ absurd (ground (arith, find_first-none n i p k missed lo hi))
  | inr (k', found) ↦
      let (hit', lo', hi') = find_first-some n i p found in
      let late : k' ≤ k = elim (Bool-cases (leb k' k)) [
        | inl le ↦ ground (arith, le)
        | inr gt ↦ absurd (ground (arith, gt, find_first-least n i p k found lo))
      ] in
      let early : k ≤ k' = elim (Bool-cases (leb k k')) [
        | inl le ↦ ground (arith, le)
        | inr gt ↦ absurd (ground (arith, gt, before k' lo'))
      ] in
      let same : k' ≡ k = omega arith in found ∙ ap (λ x. some x) same
]
