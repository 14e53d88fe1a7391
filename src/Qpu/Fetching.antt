-- ===== src/Qpu/Fetching.antt =====
-- The order in which qpu.c hands out jobs.
use quantum_os.Prelude.{
  ℕ, zero, suc, ◌+◌, ◌≤◌, ◌<◌, ◌≡◌, ◌≢◌, ◌⊎◌, refl, subst, ap, true, false, ◌&&◌, update,
  update_self, update_ne, arith, inl, inr, Bool-cases, Option-cases, Option, none, some, ltb,
}
use quantum_os.Process.{Processes, process_get_generation}
use quantum_os.Qpu.Jobs.{max_jobs, Job, Broker, Fetched, is_pending}
use quantum_os.Qpu.Broker.{qpu_fetch, oldest, older, fetched_by, handed_out}

-- `best` is a pending slot that is not younger than any pending one below `n`; there is one if any is.
record Best (jobs : ℕ → Job) (n : ℕ) (k : ℕ) : Type 0 where
  waits : is_pending (jobs k).state ≡ true
  below : k < n
  least : (j : ℕ) → j < n → is_pending (jobs j).state ≡ true → (jobs k).job_id ≤ (jobs j).job_id

abbrev Found : (ℕ → Job) → ℕ → Option ℕ → Type 0
Found jobs n none = (j : ℕ) → j < n → is_pending (jobs j).state ≡ false
Found jobs n (some k) = Best jobs n k

-- The new index against a bound on those below it.
below_or_at : (j i : ℕ) → j < i + 1 → (j < i) ⊎ (i ≡ j)
below_or_at j i lt = omega arith

older-Found :
    (jobs : ℕ → Job) (i : ℕ) (best : Option ℕ)
    → Found jobs i best
    → Found jobs (i + 1) (older jobs i best)
older-Found jobs i none f = elim (Bool-cases (is_pending (jobs i).state)) [
  | inl waits ↦
      let next : Found jobs (i + 1) (some i) = record {
        waits = waits;
        below = omega arith;
        least = λ j lt on. elim (below_or_at j i lt) [
          | inl before ↦ absurd (ground (arith, on, f j before))
          | inr here ↦ ground (arith, ap jobs here)
        ];
      } in
      subst (Found jobs (i + 1)) {x = some i} (ground (arith, waits)) next
  | inr idle ↦
      let nothing : Found jobs (i + 1) none = λ j lt. elim (below_or_at j i lt) [
        | inl before ↦ f j before
        | inr here ↦ ground (arith, idle, ap jobs here)
      ] in
      subst (Found jobs (i + 1)) {x = none} (ground (arith, idle)) nothing
]
older-Found jobs i (some k) f =
    elim (Bool-cases (is_pending (jobs i).state && ltb (jobs i).job_id (jobs k).job_id)) [
      | inl better ↦
          let next : Found jobs (i + 1) (some i) = record {
            waits = ground (arith, better);
            below = omega arith;
            least = λ j lt on. elim (below_or_at j i lt) [
              | inl before ↦ ground (arith, better, f.least j before on)
              | inr here ↦ ground (arith, ap jobs here)
            ];
          } in
          subst (Found jobs (i + 1)) {x = some i} (ground (arith, better)) next
      | inr worse ↦
          let next : Found jobs (i + 1) (some k) = record {
            waits = f.waits;
            below = omega (arith, f.below);
            least = λ j lt on. elim (below_or_at j i lt) [
              | inl before ↦ f.least j before on
              | inr here ↦ ground (arith, worse, on, ap jobs here)
            ];
          } in
          subst (Found jobs (i + 1)) {x = some k} (ground (arith, worse)) next
    ]

oldest-Found :
    (jobs : ℕ → Job) (n i : ℕ) (best : Option ℕ)
    → Found jobs i best
    → Found jobs (i + n) (oldest jobs n i best)
unfolding oldest
oldest-Found jobs zero i best f = subst (λ m. Found jobs m best) (omega arith) f
oldest-Found jobs (suc n) i best f =
    subst (λ m. Found jobs m (oldest jobs n (i + 1) (older jobs i best))) (omega arith)
      (oldest-Found jobs n (i + 1) (older jobs i best) (older-Found jobs i best f))

-- The job that a fetch of `b` by `pid` hands out from slot `k`.
pub record HandsOut (pid k : ℕ) (ps : Processes) (b b' : Broker) (r : ℕ) (out : Fetched)
    : Type 0 where
  pub below : k < max_jobs
  pub waits : is_pending (b.jobs k).state ≡ true
  pub least :
      (j : ℕ)
      → j < max_jobs
      → is_pending (b.jobs j).state ≡ true
      → (b.jobs k).job_id ≤ (b.jobs j).job_id
  pub number : r ≡ (b.jobs k).job_id
  pub copy : out ≡ handed_out (b.jobs k)
  pub stamp : b'.jobs k ≡ fetched_by pid (process_get_generation pid ps) (b.jobs k)
  pub others : (j : ℕ) → k ≢ j → b'.jobs j ≡ b.jobs j

abbrev pub Hands : ℕ → Processes → Broker → ℕ × Option Fetched × Broker → Type 0
Hands pid ps b (r, out, b') =
    ((r ≡ 0)
      × (out ≡ none)
      × (b' ≡ b)
      × ((j : ℕ) → j < max_jobs → is_pending (b.jobs j).state ≡ false))
    ⊎ ((k : ℕ) × (f : Fetched) × (out ≡ some f) × HandsOut pid k ps b b' r f)

-- A fetch returns 0 and changes nothing, and then no job is pending; or it hands out the pending job
-- of least number with its circuit, marks that slot as run by the caller's incarnation, and changes
-- no other slot.
pub qpu_fetch_lem : (pid : ℕ) (ps : Processes) (b : Broker) → Hands pid ps b (qpu_fetch pid ps b)
unfolding qpu_fetch
qpu_fetch_lem pid ps b =
    let found = oldest-Found b.jobs max_jobs 0 none (λ j lt. absurd (omega (arith, lt))) in
    elim (Option-cases (oldest b.jobs max_jobs 0 none)) [
      | inl idle ↦
          let none_waits : Found b.jobs max_jobs none = subst (Found b.jobs max_jobs) idle found in
          let is : (0, none, b) ≡ qpu_fetch pid ps b = ground (arith, idle) in
          subst (Hands pid ps b) is (inl (refl, refl, refl, none_waits))
      | inr (k, hit) ↦
          let best : Found b.jobs max_jobs (some k) = subst (Found b.jobs max_jobs) hit found in
          let j' = fetched_by pid (process_get_generation pid ps) (b.jobs k) in
          let b' = record b { jobs = update b.jobs k j' } in
          let is : ((b.jobs k).job_id, some (handed_out (b.jobs k)), b') ≡ qpu_fetch pid ps b =
            ground (arith, hit) in
          subst (Hands pid ps b) is (
            inr (
              k,
              handed_out (b.jobs k),
              refl,
              record {
                below = best.below;
                waits = best.waits;
                least = best.least;
                number = refl;
                copy = refl;
                stamp = update_self b.jobs k j';
                others = λ j ne. update_ne b.jobs k j j' ne;
              },
            ))
    ]
