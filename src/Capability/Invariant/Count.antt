-- ===== src/Capability/Invariant/Count.antt =====
-- The number of slots in use.
use quantum_os.Prelude.{
  ℕ, zero, suc, ◌+◌, ◌≤◌, ◌<◌, ◌≡◌, refl, true, false, if◌then◌else◌, ◌==◌, update, arith,
  Bool-cases, inl, inr,
}
use quantum_os.Capability.State.{Slot}

abbrev pub weight : Slot → ℕ
weight slot = if slot.in_use then 1 else 0

unfoldable pub used : ℕ → (ℕ → Slot) → ℕ
used zero t = 0
used (suc n) t = used n t + weight (t n)

used-update_above :
    (n : ℕ) (t : ℕ → Slot) (i : ℕ) (a : Slot) → n ≤ i → used n (update t i a) ≡ used n t
unfolding used
used-update_above zero t i a h = refl
used-update_above (suc n) t i a h = ground (arith, used-update_above n t i a)

-- A change of one slot shows in the count as the change of its weight.
pub used-update :
    (n : ℕ) (t : ℕ → Slot) (i : ℕ) (a : Slot)
    → i < n
    → used n (update t i a) + weight (t i) ≡ used n t + weight a
unfolding used
used-update zero t i a h = absurd (omega arith)
used-update (suc n) t i a h = elim (Bool-cases (i == n)) [
  | inl last ↦ ground (arith, last, used-update_above n t i a)
  | inr below ↦ ground (arith, below, used-update n t i a)
]

pub used-le : (n : ℕ) (t : ℕ → Slot) → used n t ≤ n
unfolding used
used-le zero t = omega arith
used-le (suc n) t = ground (arith, used-le n t)

-- A slot in use is counted.
pub used-pos : (n : ℕ) (t : ℕ → Slot) (i : ℕ) → i < n → (t i).in_use ≡ true → 0 < used n t
unfolding used
used-pos zero t i h u = absurd (omega arith)
used-pos (suc n) t i h u = elim (Bool-cases (i == n)) [
  | inl last ↦ ground (arith, last)
  | inr below ↦ ground (arith, below, used-pos n t i)
]

pub used-free : (n : ℕ) (t : ℕ → Slot) → ((i : ℕ) → (t i).in_use ≡ false) → used n t ≡ 0
unfolding used
used-free zero t h = refl
used-free (suc n) t h = ground (arith, h n, used-free n t h)

pub used_ext :
    (n : ℕ) (t u : ℕ → Slot) → ((i : ℕ) → (u i).in_use ≡ (t i).in_use) → used n u ≡ used n t
unfolding used
used_ext zero t u h = refl
used_ext (suc n) t u h = ground (arith, h n, used_ext n t u h)
