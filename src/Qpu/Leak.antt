-- ===== src/Qpu/Leak.antt =====
-- A slot that no call of qpu.c frees.
use quantum_os.Prelude.{
  ℕ, ◌<◌, ◌≡◌, ◌≢◌, refl, ◌∙◌, ap, subst, Bool, true, false, not, ◌&&◌, ◌||◌, ◌==◌, if◌then◌else◌,
  update, update_ne, &&_true, arith, inl, inr, Bool-cases, Option-cases, none, find_first,
  find_first-some, ltb, leb, List, [], ◌∷◌,
}
use quantum_os.Process.{Processes, process_get_generation}
use quantum_os.Manifest.Quota.{manifest_qsub_precheck}
use quantum_os.Syscall.Gate.{Kernel}
use quantum_os.Qpu.Jobs.{
  max_jobs, inflight_max, circuit_max, result_max, Job, JobState, free, pending, running, done,
  Broker, Submission, Completion, is_free, is_pending, is_running, inflight, slot_free,
}
use quantum_os.Qpu.Broker.{
  qpu_submit, enqueue_job, submitted, next_id, fetched_by, completed, qpu_fetch, oldest,
  qpu_complete, complete_job, find_running, qpu_poll, poll_state, find_live, qpu_on_process_destroy,
  swept,
}
use quantum_os.Qpu.Kept.{oldest-pending}
use quantum_os.Qpu.Runs.{Call, submits, fetches, completes, polls, dies, perform, perform_all}

-- Slot `i` runs a job of process `p`, incarnation `g`, that this very process fetched.
pub record SelfRun (p g i : ℕ) (b : Broker) : Type 0 where
  pub in_range : i < max_jobs
  pub runs : is_running (b.jobs i).state ≡ true
  pub owner : (b.jobs i).owner_pid ≡ p
  pub executor : (b.jobs i).executor_pid ≡ p
  pub generation : (b.jobs i).executor_generation ≡ g

same_slot : (p g i : ℕ) (b b' : Broker) → SelfRun p g i b → b'.jobs i ≡ b.jobs i → SelfRun p g i b'
same_slot p g i b b' r same = record {
  in_range = r.in_range;
  runs = ap (λ j. is_running j.state) same ∙ r.runs;
  owner = ap (λ j. j.owner_pid) same ∙ r.owner;
  executor = ap (λ j. j.executor_pid) same ∙ r.executor;
  generation = ap (λ j. j.executor_generation) same ∙ r.generation;
}

-- The call is not a report by incarnation `g` of process `p`.
unfoldable pub is_after : ℕ → ℕ → Call → Bool
is_after p g (completes now pid req k) =
    not (pid == p && process_get_generation pid k.processes == g)
is_after p g c = true

unfoldable pub are_after : ℕ → ℕ → List Call → Bool
are_after p g [] = true
are_after p g (c ∷ cs) = is_after p g c && are_after p g cs

module _ (p g i : ℕ) (b : Broker) (r : SelfRun p g i b) where
  abbrev Keeps : Broker → Type 0
  Keeps b' = SelfRun p g i b'

  -- A change of another slot, whatever the next number.
  other_slot :
      (k n : ℕ) (j : Job) → k ≢ i → Keeps (record { jobs = update b.jobs k j; next_job_id = n })
  other_slot k n j ne =
      same_slot p g i b (record { jobs = update b.jobs k j; next_job_id = n }) r
        (update_ne b.jobs k i j ne)

  free_elsewhere : (k : ℕ) → is_free (b.jobs k).state ≡ true → k ≢ i
  free_elsewhere k off e = ground (arith, off, r.runs, ap b.jobs e)

  pending_elsewhere : (k : ℕ) → is_pending (b.jobs k).state ≡ true → k ≢ i
  pending_elsewhere k off e = ground (arith, off, r.runs, ap b.jobs e)

  enqueue-SelfRun :
      (now pid : ℕ) (req : Submission) (k : Kernel) → Keeps (enqueue_job now pid req b k).1
  unfolding enqueue_job
  enqueue-SelfRun now pid req k =
      elim (Bool-cases (req.circuit_len == 0 || ltb circuit_max req.circuit_len)) [
        | inl bad ↦ subst Keeps (ground (arith, bad)) r
        | inr good ↦ elim (Bool-cases (leb inflight_max (inflight pid b.jobs max_jobs 0))) [
          | inl full ↦ subst Keeps (ground (arith, good, full)) r
          | inr room ↦
              elim (Option-cases (find_first max_jobs 0 (λ (x : ℕ). is_free (b.jobs x).state))) [
                | inl none_free ↦ subst Keeps (ground (arith, good, room, none_free)) r
                | inr (k', found) ↦
                    let (off, lo, hi) =
                      find_first-some max_jobs 0 (λ (x : ℕ). is_free (b.jobs x).state) {k = k'}
                        found in
                    subst Keeps (ground (arith, good, room, found)) (
                      other_slot k' (next_id b.next_job_id)
                        (submitted pid (process_get_generation pid k.processes) b.next_job_id req
                          (b.jobs k'))
                        (free_elsewhere k' off))
              ]
        ]
      ]

  submit-SelfRun :
      (now pid : ℕ) (req : Submission) (k : Kernel) → Keeps (qpu_submit now pid req b k).1
  unfolding qpu_submit
  submit-SelfRun now pid req k =
      let caps = k.caps in
      let l = manifest_qsub_precheck now pid k.intents caps.ledger in
      let k' : Kernel = record k { caps = record caps { ledger = l.1 } } in
      elim (Bool-cases l.0) [
        | inl ok ↦ subst Keeps (ground (arith, ok)) (enqueue-SelfRun now pid req k')
        | inr refused ↦ subst Keeps (ground (arith, refused)) r
      ]

  fetch-SelfRun : (pid : ℕ) (ps : Processes) → Keeps (qpu_fetch pid ps b).2
  unfolding qpu_fetch
  fetch-SelfRun pid ps = elim (Option-cases (oldest b.jobs max_jobs 0 none)) [
    | inl idle ↦ subst Keeps (ground (arith, idle)) r
    | inr (k, found) ↦ elim (oldest-pending b.jobs max_jobs 0 none k found) [
      | inl never ↦ absurd (ground arith)
      | inr waits ↦ subst Keeps (ground (arith, found)) (
          other_slot k b.next_job_id (fetched_by pid (process_get_generation pid ps) (b.jobs k))
            (pending_elsewhere k waits))
    ]
  ]

  complete-SelfRun :
      (now pid : ℕ) (req : Completion) (k : Kernel)
      → is_after p g (completes now pid req k) ≡ true
      → Keeps (qpu_complete now pid req b k).1
  unfolding qpu_complete complete_job is_after
  complete-SelfRun now pid req k late = elim (Bool-cases (ltb result_max req.result_len)) [
    | inl long ↦ subst Keeps (ground (arith, long)) r
    | inr short ↦ elim (Option-cases (find_running req.job_id b)) [
      | inl unknown ↦ subst Keeps (ground (arith, short, unknown)) r
      | inr (k', found) ↦
          elim (Bool-cases (
            not ((b.jobs k').executor_pid == pid)
            || not ((b.jobs k').executor_generation == process_get_generation pid k.processes))) [
              | inl forged ↦ subst Keeps (ground (arith, short, found, forged)) r
              | inr own ↦
                  let ne : k' ≢ i =
                    λ e. ground (arith, late, own, r.executor, r.generation, ap b.jobs e) in
                  subst Keeps (ground (arith, short, found, own)) (
                    other_slot k' b.next_job_id
                      (if (b.jobs k').orphaned then slot_free else completed req (b.jobs k')) ne)
            ]
    ]
  ]

  poll_state-SelfRun :
      (s : JobState) (k : ℕ) → (is_running s ≡ false → k ≢ i) → Keeps (poll_state s k b).2
  unfolding poll_state
  poll_state-SelfRun pending k ne = r
  poll_state-SelfRun running k ne = r
  poll_state-SelfRun done k ne = other_slot k b.next_job_id slot_free (ne refl)
  poll_state-SelfRun free k ne = other_slot k b.next_job_id slot_free (ne refl)

  poll-SelfRun : (pid id : ℕ) (ps : Processes) → Keeps (qpu_poll pid id ps b).2
  unfolding qpu_poll
  poll-SelfRun pid id ps = elim (Option-cases (find_live id b)) [
    | inl unknown ↦ subst Keeps (ground (arith, unknown)) r
    | inr (k, found) ↦
        elim (Bool-cases (
          not ((b.jobs k).owner_pid == pid)
          || not ((b.jobs k).owner_generation == process_get_generation pid ps))) [
            | inl stranger ↦ subst Keeps (ground (arith, found, stranger)) r
            | inr own ↦ subst Keeps (ground (arith, found, own)) (
                poll_state-SelfRun (b.jobs k).state k
                  (λ stopped e. ground (arith, stopped, r.runs, ap b.jobs e)))
          ]
  ]

  destroy-SelfRun : (pid : ℕ) → Keeps (qpu_on_process_destroy pid b)
  unfolding qpu_on_process_destroy swept
  destroy-SelfRun pid = record {
    in_range = r.in_range;
    runs = ground (arith, r.in_range, r.runs, r.owner, r.executor);
    owner = ground (arith, r.in_range, r.runs, r.owner, r.executor);
    executor = ground (arith, r.in_range, r.runs, r.owner, r.executor);
    generation = ground (arith, r.in_range, r.runs, r.owner, r.executor, r.generation);
  }

  perform-SelfRun : (c : Call) → is_after p g c ≡ true → Keeps (perform c b)
  unfolding perform
  perform-SelfRun (submits now pid req k) late = submit-SelfRun now pid req k
  perform-SelfRun (fetches pid ps) late = fetch-SelfRun pid ps
  perform-SelfRun (completes now pid req k) late = complete-SelfRun now pid req k late
  perform-SelfRun (polls pid id ps) late = poll-SelfRun pid id ps
  perform-SelfRun (dies pid) late = destroy-SelfRun pid

-- A process that runs a job of its own holds the slot for good if it stops before it reports: after
-- any run of calls, its own death and later lives under its pid included, in which that incarnation
-- makes no report, the slot still holds the job as running.
pub self_executed_leaks :
    (p g i : ℕ) (cs : List Call) (b : Broker)
    → SelfRun p g i b
    → are_after p g cs ≡ true
    → SelfRun p g i (perform_all cs b)
unfolding perform_all are_after
self_executed_leaks p g i [] b r late = r
self_executed_leaks p g i (c ∷ cs) b r late =
    let (first, rest) = &&_true (is_after p g c) (are_after p g cs) late in
    self_executed_leaks p g i cs (perform c b) (perform-SelfRun p g i b r c first) rest
