-- ===== src/Qpu/Slots.antt =====
-- The invariant of the job table: free slots are scrubbed, and an owner holds at most two.
use quantum_os.Prelude.{
  ℕ, zero, suc, ◌+◌, ◌≤◌, ◌<◌, ◌≡◌, refl, true, ◌==◌, update, arith, inl, inr, Bool-cases,
}
use quantum_os.Qpu.Jobs.{
  max_jobs, inflight_max, Job, Broker, is_free, is_inflight, inflight, slot_free,
}

pub record IsValid (b : Broker) : Type 0 where
  pub scrubbed : (i : ℕ) → is_free (b.jobs i).state ≡ true → b.jobs i ≡ slot_free
  pub capped : (pid : ℕ) → inflight pid b.jobs max_jobs 0 ≤ inflight_max

-- Where every slot in flight was so before, no more are in flight.
pub inflight_mono :
    (pid : ℕ) (f g : ℕ → Job) (n i : ℕ)
    → ((k : ℕ) → is_inflight pid (g k) ≡ true → is_inflight pid (f k) ≡ true)
    → inflight pid g n i ≤ inflight pid f n i
unfolding inflight
inflight_mono pid f g zero i h = omega arith
inflight_mono pid f g (suc n) i h = elim (Bool-cases (is_inflight pid (g i))) [
  | inl on ↦ ground (arith, on, h i, inflight_mono pid f g n (i + 1) h)
  | inr off ↦ ground (arith, off, inflight_mono pid f g n (i + 1) h)
]

-- A slot outside the range counts for nothing.
inflight-outside :
    (pid : ℕ) (f : ℕ → Job) (k : ℕ) (j : Job) (n i : ℕ)
    → k < i
    → inflight pid (update f k j) n i ≡ inflight pid f n i
unfolding inflight
inflight-outside pid f k j zero i lt = refl
inflight-outside pid f k j (suc n) i lt = ground (arith, inflight-outside pid f k j n (i + 1))

-- One slot written makes at most one more.
pub inflight-update :
    (pid : ℕ) (f : ℕ → Job) (k : ℕ) (j : Job) (n i : ℕ)
    → inflight pid (update f k j) n i ≤ inflight pid f n i + 1
unfolding inflight
inflight-update pid f k j zero i = omega arith
inflight-update pid f k j (suc n) i = elim (Bool-cases (k == i)) [
  | inl here ↦ ground (arith, here, inflight-outside pid f k j n (i + 1))
  | inr there ↦ ground (arith, there, inflight-update pid f k j n (i + 1))
]
