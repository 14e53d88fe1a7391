-- ===== src/Qpu/Results.antt =====
-- What the owner of a job and its executor get from the broker.
use quantum_os.Prelude.{
  ℕ, ◌≤◌, ◌<◌, ◌≡◌, ◌≢◌, ◌⊎◌, sym, ◌∙◌, ap, true, false, not, ◌&&◌, ◌||◌, ◌==◌, if◌then◌else◌,
  update, arith, inl, inr, Bool-cases, Option-cases, none, some, find_first-some, find_first-at,
  ltb, ==_refl,
}
use mathlib.Core.Path.{fun_ext}
use quantum_os.Process.{Processes, process_get_generation}
use quantum_os.Syscall.Gate.{Kernel, deny}
use quantum_os.Syscall.Delegate.{eperm}
use quantum_os.Syscall.Exit.{enoent}
use quantum_os.Manifest.Quota.{device_id_qpu}
use quantum_os.Audit.Ring.{resource_device}
use quantum_os.Qpu.Jobs.{
  max_jobs, result_max, status_execfail, Job, Broker, Completion, Polled, is_free, is_running,
  copied, slot_free,
}
use quantum_os.Qpu.Broker.{
  qpu_complete, complete_job, completed, find_running, qpu_poll, poll_state, find_live, result_of,
}

-- Slots in use have different job numbers.
abbrev pub Distinct : Broker → Type 0
Distinct b =
    (i j : ℕ)
    → is_free (b.jobs i).state ≡ false
    → is_free (b.jobs j).state ≡ false
    → (b.jobs i).job_id ≡ (b.jobs j).job_id
    → i ≡ j

-- Slot `i` holds a job that this incarnation of process `executor` runs for this one of `owner`.
pub record Runs (owner executor i : ℕ) (ps : Processes) (b : Broker) : Type 0 where
  pub in_range : i < max_jobs
  pub runs : is_running (b.jobs i).state ≡ true
  pub wanted : (b.jobs i).orphaned ≡ false
  pub executor_pid : (b.jobs i).executor_pid ≡ executor
  pub executor_generation : (b.jobs i).executor_generation ≡ process_get_generation executor ps
  pub owner_pid : (b.jobs i).owner_pid ≡ owner
  pub owner_generation : (b.jobs i).owner_generation ≡ process_get_generation owner ps

pub find_running_at :
    (i : ℕ) (b : Broker)
    → Distinct b
    → i < max_jobs
    → is_running (b.jobs i).state ≡ true
    → find_running (b.jobs i).job_id b ≡ some i
find_running_at i b d lt on =
    find_first-at max_jobs 0
      (λ (x : ℕ). is_running (b.jobs x).state && (b.jobs x).job_id == (b.jobs i).job_id) i
      (ground (arith, on, ==_refl (b.jobs i).job_id)) (omega arith) (omega arith)
      (λ j lo hi.
        elim (Bool-cases (is_running (b.jobs j).state && (b.jobs j).job_id == (b.jobs i).job_id)) [
          | inr is_not ↦ is_not
          | inl is_so ↦ absurd (
              omega
                (arith, d j i (ground (arith, is_so)) (ground (arith, on)) (ground (arith, is_so))))
        ])

-- The table after the executor of slot `i` reported.
abbrev reported : Completion → ℕ → Broker → Broker
reported req i b = record b { jobs = update b.jobs i (completed req (b.jobs i)) }

find_live_at :
    (req : Completion) (i : ℕ) (b : Broker)
    → Distinct b
    → i < max_jobs
    → is_running (b.jobs i).state ≡ true
    → find_live (b.jobs i).job_id (reported req i b) ≡ some i
find_live_at req i b d lt on =
    find_first-at max_jobs 0
      (λ (x : ℕ).
        not (is_free ((reported req i b).jobs x).state)
        && ((reported req i b).jobs x).job_id == (b.jobs i).job_id)
      i (ground (arith, ==_refl (b.jobs i).job_id)) (omega arith) (omega arith)
      (λ j lo hi.
        elim (Bool-cases
          (not (is_free (b.jobs j).state) && (b.jobs j).job_id == (b.jobs i).job_id)) [
            | inr is_not ↦ ground (arith, is_not)
            | inl is_so ↦ absurd (
                omega (
                  arith,
                  d j i (ground (arith, is_so)) (ground (arith, on)) (ground (arith, is_so)),
                ))
          ])

-- The report that the owner is to see.
abbrev pub report : Completion → Polled
report req = record {
  state = 3;
  status = if req.status == 0 then 0 else status_execfail;
  result_len = req.result_len;
  result = copied req.result_len req.result (λ _. 0);
}

copied_twice :
    (len : ℕ) (src dst : ℕ → ℕ) → copied len (copied len src dst) (λ _. 0) ≡ copied len src (λ _. 0)
copied_twice len src dst = fun_ext (λ k. twice len (src k) (dst k) k)
  where
    twice :
        (n x y k : ℕ)
        → (if ltb k n then (if ltb k n then x else y) else 0) ≡ (if ltb k n then x else 0)
    twice n x y k = ground arith

seen-report : (req : Completion) (j : Job) → result_of (completed req j) ≡ report req
seen-report req j =
    ap
      (λ (r : ℕ → ℕ). record {
        state = 3;
        status = if req.status == 0 then 0 else status_execfail;
        result_len = req.result_len;
        result = r;
      })
      (copied_twice req.result_len req.result j.result)

complete_reports :
    (now owner executor i : ℕ) (req : Completion) (b : Broker) (k : Kernel)
    → Distinct b
    → Runs owner executor i k.processes b
    → req.job_id ≡ (b.jobs i).job_id
    → req.result_len ≤ result_max
    → qpu_complete now executor req b k ≡ (0, reported req i b, k)
unfolding qpu_complete complete_job
complete_reports now owner executor i req b k d on which short =
    let found = find_running_at i b d on.in_range on.runs in
    ground (arith, which, found, on.wanted, on.executor_pid, on.executor_generation)

poll_live :
    (owner i : ℕ) (req : Completion) (b : Broker) (ps : Processes)
    → Distinct b
    → i < max_jobs
    → is_running (b.jobs i).state ≡ true
    → (b.jobs i).owner_pid ≡ owner
    → process_get_generation owner ps ≡ (b.jobs i).owner_generation
    → qpu_poll owner (b.jobs i).job_id ps (reported req i b)
      ≡ (3, some (report req), record b { jobs = update (reported req i b).jobs i slot_free })
unfolding qpu_poll poll_state
poll_live owner i req b ps d lt on own live =
    let found = find_live_at req i b d lt on in
    ground (arith, found, own, live, seen-report req (b.jobs i))

-- Where job numbers are distinct and slot `i` runs for `owner`: the report of its executor, of at most
-- 128 bytes, is accepted and changes no kernel state; the owner's next poll, by the same incarnation,
-- returns exactly that report, padded with zeros, and leaves the slot scrubbed.
pub polled_as_reported :
    (now owner executor i : ℕ) (req : Completion) (b : Broker) (k : Kernel) (ps : Processes)
    → Distinct b
    → Runs owner executor i k.processes b
    → req.job_id ≡ (b.jobs i).job_id
    → req.result_len ≤ result_max
    → process_get_generation owner ps ≡ process_get_generation owner k.processes
    → let (r, b', k') = qpu_complete now executor req b k in
      let (s, seen, b'') = qpu_poll owner req.job_id ps b' in
      (r ≡ 0) × (k' ≡ k) × (s ≡ 3) × (seen ≡ some (report req)) × (b''.jobs i ≡ slot_free)
polled_as_reported now owner executor i req b k ps d on which short same =
    let first = complete_reports now owner executor i req b k d on which short in
    let live : process_get_generation owner ps ≡ (b.jobs i).owner_generation =
      same ∙ sym on.owner_generation in
    let next = poll_live owner i req b ps d on.in_range on.runs on.owner_pid live in
    ground (arith, first, next, which)

-- A report of at most 128 bytes for a running job by anyone but the incarnation that fetched it is
-- refused: no job changes, and the ledger records the denial.
pub forged_report_refused :
    (now pid i : ℕ) (req : Completion) (b : Broker) (k : Kernel)
    → Distinct b
    → i < max_jobs
    → is_running (b.jobs i).state ≡ true
    → req.job_id ≡ (b.jobs i).job_id
    → req.result_len ≤ result_max
    → ((b.jobs i).executor_pid ≢ pid)
      ⊎ ((b.jobs i).executor_generation ≢ process_get_generation pid k.processes)
    → qpu_complete now pid req b k ≡ (eperm, b, deny now pid resource_device device_id_qpu 4 k)
unfolding qpu_complete complete_job
forged_report_refused now pid i req b k d lt on which short (inl other) =
    let found = find_running_at i b d lt on in ground (arith, which, found, other)
forged_report_refused now pid i req b k d lt on which short (inr old) =
    let found = find_running_at i b d lt on in ground (arith, which, found, old)

-- Slot `i` holds a job of this number, of this incarnation of the process.
pub record Owns (pid id i : ℕ) (ps : Processes) (b : Broker) : Type 0 where
  pub in_range : i < max_jobs
  pub live : is_free (b.jobs i).state ≡ false
  pub number : (b.jobs i).job_id ≡ id
  pub owner_pid : (b.jobs i).owner_pid ≡ pid
  pub owner_generation : (b.jobs i).owner_generation ≡ process_get_generation pid ps

-- A poll finds a job of the number that the caller's own incarnation submitted, or it returns ENOENT
-- and nothing else, and changes no job.
pub poll_private :
    (pid id : ℕ) (ps : Processes) (b : Broker)
    → ((i : ℕ) × Owns pid id i ps b) ⊎ (qpu_poll pid id ps b ≡ (enoent, none, b))
unfolding qpu_poll
poll_private pid id ps b = elim (Option-cases (find_live id b)) [
  | inl unknown ↦ inr (ground (arith, unknown))
  | inr (i, found) ↦
      let (is, lo, hi) =
        find_first-some max_jobs 0
          (λ (x : ℕ). not (is_free (b.jobs x).state) && (b.jobs x).job_id == id) {k = i} found in
      elim (Bool-cases (
        not ((b.jobs i).owner_pid == pid)
        || not ((b.jobs i).owner_generation == process_get_generation pid ps))) [
          | inl stranger ↦ inr (ground (arith, found, stranger))
          | inr own ↦ inl (
            i,
            record {
              in_range = omega arith;
              live = ground (arith, is);
              number = ground (arith, is);
              owner_pid = ground (arith, own);
              owner_generation = ground (arith, own);
            },
          )
        ]
]
