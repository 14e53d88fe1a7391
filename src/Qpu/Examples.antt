-- ===== src/Qpu/Examples.antt =====
-- Jobs at the broker, and the theorems about them at concrete tables.
use quantum_os.Prelude.{ℕ, ◌≡◌, ◌⊎◌, refl, false, some, List, [], ◌∷◌, update, arith}
use quantum_os.Audit.Examples.{empty_ledger}
use quantum_os.Capability.State.{System}
use quantum_os.Capability.Create.{cap_init}
use quantum_os.Capability.Invariant.{IsValid}
use quantum_os.Capability.History.Kept.{image, init-IsValid}
use quantum_os.Manifest.Examples.{fresh}
use quantum_os.Process.{
  Processes, process_magic, running, user, process_get_generation, zero_process, no_processes,
}
use quantum_os.Service.{Service, stopped}
use quantum_os.Syscall.Gate.{Kernel}
use quantum_os.Qpu.Jobs.{Job, JobState, Broker, Submission, Completion, slot_free}
use quantum_os.Qpu.Broker.{qpu_complete, qpu_poll, qpu_on_process_destroy}
use quantum_os.Qpu.Runs.{
  Call, submits, fetches, completes, polls, dies, perform_all, qpu_calls-IsValid,
}
use quantum_os.Qpu.Slots
use quantum_os.Qpu.Results.{Distinct, Runs, report, polled_as_reported}
use quantum_os.Qpu.Death.{Settles, sweep-Settles, no_answer, over_at}
use quantum_os.Qpu.Leak.{SelfRun, is_after, are_after, self_executed_leaks}
use quantum_os.Qpu.Calls.{submit, sys_qpu, Refused, Permitted, serve, sys_qpu_authority}

booted : System
unfolding cap_init
booted = (cap_init (image empty_ledger)).1

booted-IsValid : IsValid booted
unfolding booted
booted-IsValid = init-IsValid empty_ledger

abbrev programs : Processes
programs = record no_processes {
  table = λ _. record zero_process {
    magic = process_magic;
    state = running;
    type = user;
    generation = 1;
  };
  slot_generation = λ _. 1;
}

abbrev no_service : Service
no_service = record {
  registered = false;
  monitored = false;
  pid = 0;
  pid_generation = 0;
  state = stopped;
}

abbrev kernel : Kernel
kernel = record { caps = booted; intents = fresh; processes = programs; services = λ _. no_service }

abbrev no_jobs : Broker
no_jobs = record { jobs = λ _. slot_free; next_job_id = 1 }

-- Five bytes of circuit.
abbrev bell : Submission
bell = record { circuit_len = 5; circuit = λ k. k }

abbrev answer : Completion
answer = record { job_id = 1; status = 0; result_len = 2; result = λ k. k }

abbrev day : List Call
day =
    submits 5 7 bell kernel
    ∷ fetches 9 programs
    ∷ completes 6 9 answer kernel
    ∷ polls 7 1 programs
    ∷ dies 7
    ∷ []

qpu_calls-IsValid_example : Slots.IsValid (perform_all day no_jobs)
qpu_calls-IsValid_example = qpu_calls-IsValid day no_jobs (λ i. refl)

-- The job of `owner` that `executor` runs.
abbrev run_by : ℕ → ℕ → Job
run_by owner executor = record {
  state = JobState.running;
  orphaned = false;
  status = 0;
  job_id = 1;
  owner_pid = owner;
  owner_generation = 1;
  executor_pid = executor;
  executor_generation = 1;
  circuit_len = 5;
  result_len = 0;
  circuit = λ k. k;
  result = λ _. 0;
}

abbrev one_job : ℕ → ℕ → Broker
one_job owner executor = record {
  jobs = update (λ _. slot_free) 0 (run_by owner executor);
  next_job_id = 2;
}

one_job-Distinct : Distinct (one_job 7 9)
one_job-Distinct i j a b e = ground (arith, a, b)

abbrev runs_now : Runs 7 9 0 programs (one_job 7 9)
unfolding process_get_generation
runs_now = record {
  in_range = omega arith;
  runs = refl;
  wanted = refl;
  executor_pid = refl;
  executor_generation = refl;
  owner_pid = refl;
  owner_generation = refl;
}

polled_as_reported_example :
    let (r, b', k') = qpu_complete 6 9 answer (one_job 7 9) kernel in
    let (s, seen, b'') = qpu_poll 7 1 programs b' in
    (r ≡ 0) × (k' ≡ kernel) × (s ≡ 3) × (seen ≡ some (report answer)) × (b''.jobs 0 ≡ slot_free)
polled_as_reported_example =
    polled_as_reported 6 7 9 0 answer (one_job 7 9) kernel programs one_job-Distinct runs_now refl
      (omega arith) refl

sweep-Settles_example : Settles 9 0 (one_job 7 9) (qpu_on_process_destroy 9 (one_job 7 9))
sweep-Settles_example = sweep-Settles 9 (one_job 7 9) one_job-Distinct 0 (omega arith)

-- Process 9 dies while it runs the job of 7, and 7 polls.
owner_told :
    let after = qpu_on_process_destroy 9 (one_job 7 9) in
    qpu_poll 7 1 programs after ≡ (3, some no_answer, over_at 0 after)
unfolding process_get_generation
owner_told =
    (sweep-Settles 9 (one_job 7 9) one_job-Distinct 0 (omega arith)).failure_seen 7 programs refl
      refl refl (omega arith) refl refl

-- Process 7 dies while 9 runs its job, and 9 reports.
report_taken :
    let after = qpu_on_process_destroy 7 (one_job 7 9) in
    qpu_complete 6 9 answer after kernel ≡ (0, over_at 0 after, kernel)
unfolding process_get_generation
report_taken =
    (sweep-Settles 7 (one_job 7 9) one_job-Distinct 0 (omega arith)).report_frees 6 9 answer kernel
      refl refl refl refl refl (omega arith)

abbrev own_job : SelfRun 7 1 0 (one_job 7 7)
own_job = record {
  in_range = omega arith;
  runs = refl;
  owner = refl;
  executor = refl;
  generation = refl;
}

self_executed_leaks_example :
    SelfRun 7 1 0 (perform_all (dies 7 ∷ fetches 9 programs ∷ []) (one_job 7 7))
unfolding are_after is_after
self_executed_leaks_example =
    self_executed_leaks 7 1 0 (dies 7 ∷ fetches 9 programs ∷ []) (one_job 7 7) own_job refl

-- The job of process 7, not fetched yet.
abbrev one_waits : Broker
one_waits =
    let j = run_by 7 0 in
    record {
      jobs = update (λ _. slot_free) 2 (record j { state = JobState.pending });
      next_job_id = 2;
    }

sys_qpu_authority_example :
    let q = submit (some bell) in
    ((¬ (Permitted 5 7 q kernel)) × Refused q no_jobs kernel (sys_qpu 5 7 q no_jobs kernel))
    ⊎ (Permitted 5 7 q kernel × (sys_qpu 5 7 q no_jobs kernel ≡ serve 5 7 q no_jobs kernel))
sys_qpu_authority_example = sys_qpu_authority 5 7 (submit (some bell)) no_jobs kernel booted-IsValid
