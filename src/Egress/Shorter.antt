-- ===== src/Egress/Shorter.antt =====
-- Parsers of egress.c that leave less than they are given, chained.
use quantum_os.Prelude.{
  ℕ, ◌+◌, ◌≤◌, ◌<◌, ◌≡◌, refl, sym, subst, Bool, true, false, List, [], ◌∷◌, Option, none, some,
  inl, inr, arith, Bool-cases, Option-cases, length, and_then, if◌then◌else◌, ◌==◌,
}
use quantum_os.Egress.Parse.{after_word}

-- What a parser leaves, if it does not refuse: fewer than `n` bytes, or at most `n`.
abbrev pub Leaves {ℓ} : {A : Type ℓ} → ℕ → Option (A × List ℕ) → Type 0
Leaves n none = 0 ≤ n
Leaves n (some (x, r)) = length r < n

abbrev pub Within {ℓ} : {A : Type ℓ} → ℕ → Option (A × List ℕ) → Type 0
Within n none = 0 ≤ n
Within n (some (x, r)) = length r ≤ n

-- The same of a word that is skipped.
abbrev pub Skips : ℕ → Option (List ℕ) → Type 0
Skips n none = 0 ≤ n
Skips n (some r) = length r ≤ n

pub within {ℓ} : {A : Type ℓ} (n m : ℕ) (o : Option (A × List ℕ)) → n ≤ m → Within n o → Within m o
within n m none le h = omega arith
within n m (some (x, r)) le h = omega (arith, h)

pub weaken {ℓ} : {A : Type ℓ} (n : ℕ) (o : Option (A × List ℕ)) → Leaves n o → Within n o
weaken n none h = omega arith
weaken n (some (x, r)) h = omega (arith, h)

pub shorter {ℓ} : {A : Type ℓ} {m l : ℕ} (o : Option (A × List ℕ)) → l < m → Within l o → Leaves m o
shorter none lt w = omega arith
shorter (some (x, r)) lt w = omega (arith, w)

module _ {ℓ κ} {A : Type ℓ} {B : Type κ} where
  pub chain_strict :
      (n : ℕ) (o : Option (A × List ℕ)) (f : A × List ℕ → Option (B × List ℕ))
      → Leaves n o
      → ((x : A) (r : List ℕ) → Within (length r) (f (x, r)))
      → Leaves n (and_then o f)
  chain_strict n none f h k = omega arith
  chain_strict n (some (x, r)) f h k = shorter (f (x, r)) h (k x r)

  pub chain :
      (n : ℕ) (o : Option (A × List ℕ)) (f : A × List ℕ → Option (B × List ℕ))
      → Within n o
      → ((x : A) (r : List ℕ) → Within (length r) (f (x, r)))
      → Within n (and_then o f)
  chain n none f h k = omega arith
  chain n (some (x, r)) f h k = within (length r) n (f (x, r)) h (k x r)

module _ {κ} {B : Type κ} where
  pub skip :
      (n : ℕ) (o : Option (List ℕ)) (f : List ℕ → Option (B × List ℕ))
      → Skips n o
      → ((r : List ℕ) → Within (length r) (f r))
      → Within n (and_then o f)
  skip n none f h k = omega arith
  skip n (some r) f h k = within (length r) n (f r) h (k r)

pub either_Within {ℓ} :
    {A : Type ℓ} (n : ℕ) (b : Bool) (x y : Option (A × List ℕ))
    → Within n x
    → Within n y
    → Within n (if b then x else y)
either_Within n true x y h k = h
either_Within n false x y h k = k

pub either_Leaves {ℓ} :
    {A : Type ℓ} (n : ℕ) (b : Bool) (x y : Option (A × List ℕ))
    → (b ≡ true → Leaves n x)
    → (b ≡ false → Leaves n y)
    → Leaves n (if b then x else y)
either_Leaves n true x y h k = h refl
either_Leaves n false x y h k = k refl

-- A word takes its length.
pub length-after_word :
    (w s : List ℕ) (r : List ℕ) → after_word w s ≡ some r → length r + length w ≡ length s
unfolding after_word
length-after_word [] s r e = ground (arith, e)
length-after_word (c ∷ w) [] r e = absurd (ground arith)
length-after_word (c ∷ w) (x ∷ s) r e = elim (Bool-cases (x == c)) [
  | inl same ↦ ground (arith, same, length-after_word w s r)
  | inr other ↦ absurd (ground (arith, other))
]

pub after_word-Skips : (w s : List ℕ) → Skips (length s) (after_word w s)
after_word-Skips w s = elim (Option-cases (after_word w s)) [
  | inl missing ↦ subst (Skips (length s)) {x = none} (sym missing) (omega arith)
  | inr (r, found) ↦
      subst (Skips (length s)) {x = some r} (sym found)
        (omega (arith, length-after_word w s r found))
]
