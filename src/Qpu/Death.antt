-- ===== src/Qpu/Death.antt =====
-- What the death sweep of qpu.c leaves, what it cannot free, and what the next calls of the others see.
use quantum_os.Prelude.{
  ℕ, ◌≤◌, ◌<◌, ◌≡◌, ◌≢◌, ◌⊎◌, ◌∙◌, ap, sym, true, false, not, ◌&&◌, ◌==◌, some, if◌then◌else◌,
  update, ltb, refl, arith, inl, inr, Bool-cases, find_first-at, ==_refl,
}
use mathlib.Core.Path.{fun_ext}
use quantum_os.Process.{Processes, process_get_generation}
use quantum_os.Syscall.Gate.{Kernel}
use quantum_os.Qpu.Jobs.{
  max_jobs, result_max, status_execfail, Job, Broker, Completion, Polled, is_free, is_running,
  slot_free,
}
use quantum_os.Qpu.Broker.{
  qpu_on_process_destroy, swept, failed, qpu_poll, poll_state, find_live, qpu_complete,
  complete_job, result_of,
}
use quantum_os.Qpu.Results.{Distinct, find_running_at}

-- What the sweep for `pid` owes each slot, before and after.
pub record Swept (pid : ℕ) (j j' : Job) : Type 0 where
  pub own :
      is_free j'.state ≡ false
      → j'.owner_pid ≡ pid
      → (is_running j'.state ≡ true) × (j'.orphaned ≡ true)
  pub held : is_running j.state ≡ true → j.owner_pid ≡ pid → j' ≡ record j { orphaned = true }
  pub let_go : is_running j.state ≡ false → j.owner_pid ≡ pid → is_free j'.state ≡ true
  pub ran : is_running j'.state ≡ true → j'.executor_pid ≡ pid → j'.owner_pid ≡ pid
  pub told :
      is_running j.state ≡ true
      → j.executor_pid ≡ pid
      → j.owner_pid ≢ pid
      → j' ≡ (if j.orphaned then slot_free else failed j)
  pub kept : j.owner_pid ≢ pid → (is_running j.state ≡ false) ⊎ (j.executor_pid ≢ pid) → j' ≡ j

pub sweep-Swept :
    (pid : ℕ) (b : Broker) (i : ℕ)
    → i < max_jobs
    → Swept pid (b.jobs i) ((qpu_on_process_destroy pid b).jobs i)
unfolding qpu_on_process_destroy swept
sweep-Swept pid b i lt = record {
  own = λ live mine. ground (arith, live, mine);
  held = λ on mine. ground (arith, on, mine);
  let_go = λ off mine. ground (arith, off, mine);
  ran = λ on mine. ground (arith, on, mine);
  told = λ on mine other. ground (arith, on, mine, other);
  kept = λ other rest. elim rest [
    | inl idle ↦ ground (arith, other, idle)
    | inr stranger ↦ ground (arith, other, stranger)
  ];
}

-- A slot in use after the sweep was in use before, with the same job.
swept-live :
    (pid : ℕ) (j : Job)
    → is_free (swept pid j).state ≡ false
    → (is_free j.state ≡ false) × ((swept pid j).job_id ≡ j.job_id)
unfolding swept
swept-live pid j live = (ground (arith, live), ground (arith, live))

sweep-live :
    (pid : ℕ) (b : Broker) (i : ℕ)
    → is_free ((qpu_on_process_destroy pid b).jobs i).state ≡ false
    → (is_free (b.jobs i).state ≡ false)
      × (((qpu_on_process_destroy pid b).jobs i).job_id ≡ (b.jobs i).job_id)
unfolding qpu_on_process_destroy
sweep-live pid b i = elim (Bool-cases (ltb i max_jobs)) [
  | inl small ↦ rw small (swept-live pid (b.jobs i))
  | inr large ↦ rw large (λ live. (live, refl))
]

sweep-Distinct : (pid : ℕ) (b : Broker) → Distinct b → Distinct (qpu_on_process_destroy pid b)
sweep-Distinct pid b d i j a c e =
    let (live_i, same_i) = sweep-live pid b i a in
    let (live_j, same_j) = sweep-live pid b j c in d i j live_i live_j (sym same_i ∙ e ∙ same_j)

find_live_in :
    (i : ℕ) (b : Broker)
    → Distinct b
    → i < max_jobs
    → is_free (b.jobs i).state ≡ false
    → find_live (b.jobs i).job_id b ≡ some i
find_live_in i b d lt live =
    find_first-at max_jobs 0
      (λ (x : ℕ). not (is_free (b.jobs x).state) && (b.jobs x).job_id == (b.jobs i).job_id) i
      (ground (arith, live, ==_refl (b.jobs i).job_id)) (omega arith) (omega arith)
      (λ j lo hi.
        elim (Bool-cases
          (not (is_free (b.jobs j).state) && (b.jobs j).job_id == (b.jobs i).job_id)) [
            | inr is_not ↦ is_not
            | inl is_so ↦
                absurd (omega (arith, d j i (ground (arith, is_so)) live (ground (arith, is_so))))
          ])

-- The answer to a poll for a job whose executor died.
abbrev pub no_answer : Polled
no_answer = record { state = 3; status = status_execfail; result_len = 0; result = λ _. 0 }

-- The table once the job in slot `i` is over.
abbrev pub over_at : ℕ → Broker → Broker
over_at i b = record b { jobs = update b.jobs i slot_free }

-- Slot `i` after the sweep for `pid`, and what the calls about it return from then on: the owner of a
-- job that `pid` ran is told that it failed, and the report on a job of `pid` frees its slot.
pub record Settles (pid i : ℕ) (b b' : Broker) : Type 0 where
  pub slot : Swept pid (b.jobs i) (b'.jobs i)
  pub failure_seen :
      (owner : ℕ) (ps : Processes)
      → is_running (b.jobs i).state ≡ true
      → (b.jobs i).executor_pid ≡ pid
      → (b.jobs i).orphaned ≡ false
      → owner ≢ pid
      → (b.jobs i).owner_pid ≡ owner
      → (b.jobs i).owner_generation ≡ process_get_generation owner ps
      → qpu_poll owner (b.jobs i).job_id ps b' ≡ (3, some no_answer, over_at i b')
  pub report_frees :
      (now executor : ℕ) (req : Completion) (k : Kernel)
      → is_running (b.jobs i).state ≡ true
      → (b.jobs i).owner_pid ≡ pid
      → (b.jobs i).executor_pid ≡ executor
      → (b.jobs i).executor_generation ≡ process_get_generation executor k.processes
      → req.job_id ≡ (b.jobs i).job_id
      → req.result_len ≤ result_max
      → qpu_complete now executor req b' k ≡ (0, over_at i b', k)

seen_failed : (j : Job) → result_of (failed j) ≡ no_answer
seen_failed j =
    ap (λ (r : ℕ → ℕ). record { state = 3; status = status_execfail; result_len = 0; result = r })
      (fun_ext (λ k. ground arith))

poll_failed :
    (owner i : ℕ) (ps : Processes) (j : Job) (b : Broker)
    → Distinct b
    → i < max_jobs
    → b.jobs i ≡ failed j
    → j.owner_pid ≡ owner
    → j.owner_generation ≡ process_get_generation owner ps
    → qpu_poll owner j.job_id ps b ≡ (3, some no_answer, over_at i b)
unfolding qpu_poll poll_state
poll_failed owner i ps j b d lt is own generation =
    let found = find_live_in i b d lt (ap (λ (x : Job). is_free x.state) is) in
    let found' : find_live j.job_id b ≡ some i =
      ap (λ n. find_live n b) (sym (ap (λ (x : Job). x.job_id) is)) ∙ found in
    ground (arith, found', is, own, generation, ap result_of is ∙ seen_failed j)

report_over :
    (now executor i : ℕ) (req : Completion) (j : Job) (b : Broker) (k : Kernel)
    → Distinct b
    → i < max_jobs
    → b.jobs i ≡ record j { orphaned = true }
    → is_running j.state ≡ true
    → j.executor_pid ≡ executor
    → j.executor_generation ≡ process_get_generation executor k.processes
    → req.job_id ≡ j.job_id
    → req.result_len ≤ result_max
    → qpu_complete now executor req b k ≡ (0, over_at i b, k)
unfolding qpu_complete complete_job
report_over now executor i req j b k d lt is on mine generation which short =
    let found = find_running_at i b d lt (ap (λ (x : Job). is_running x.state) is ∙ on) in
    ground (arith, which, found, is, mine, generation)

-- After the sweep for a dead process: a running job of its own is kept and marked orphaned, and the
-- report of its executor, of at most 128 bytes, is accepted and frees the slot; every other slot of its
-- own is free; a running slot that it executes is its own; of a job that it was running for another, the
-- owner's next poll, by the incarnation that submitted it, returns a failure without a result and frees
-- the slot, which is freed at once if that owner was dead too; and every other job is as it was. Job
-- numbers are distinct before.
pub sweep-Settles :
    (pid : ℕ) (b : Broker)
    → Distinct b
    → (i : ℕ) → i < max_jobs
    → Settles pid i b (qpu_on_process_destroy pid b)
sweep-Settles pid b d i lt =
    let after = qpu_on_process_destroy pid b in
    let x = sweep-Swept pid b i lt in
    let d' = sweep-Distinct pid b d in
    record {
      slot = x;
      failure_seen = λ owner ps on mine wanted other own generation.
          poll_failed owner i ps (b.jobs i) after d' lt
            (x.told on mine (λ e. other (sym own ∙ e)) ∙ rw wanted refl) own generation;
      report_frees = λ now executor req k on own mine generation which short.
          report_over now executor i req (b.jobs i) after k d' lt (x.held on own) on mine generation
            which short;
    }
