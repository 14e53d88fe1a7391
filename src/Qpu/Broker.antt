-- ===== src/Qpu/Broker.antt =====
-- qpu.c: the entry points of the broker.
use quantum_os.Prelude.{
  ℕ, zero, suc, ◌+◌, ◌%◌, ◌^◌, true, not, ◌&&◌, ◌||◌, Option, none, some, leb, ltb, ◌==◌,
  if◌then◌else◌, update, find_first,
}
use quantum_os.Audit.{audit_record}
use quantum_os.Audit.Kind
use quantum_os.Audit.Ring.{event_ok}
use quantum_os.Manifest.Quota.{manifest_qsub_precheck, manifest_qsub_charge, device_id_qpu}
use quantum_os.Process.{Processes, process_get_generation}
use quantum_os.Syscall.Gate.{Kernel, deny}
use quantum_os.Syscall.Delegate.{einval, eperm, eio}
use quantum_os.Syscall.Exit.{enoent}
use quantum_os.Audit.Ring.{resource_device}
use quantum_os.Qpu.Jobs.{
  max_jobs, inflight_max, circuit_max, result_max, status_execfail, JobState, free, pending,
  running, done, Job, Broker, Submission, Fetched, Completion, Polled, is_free, is_pending,
  is_running, copied, slot_free, inflight,
}

-- The identifier after `id`; 0 is never given.
abbrev pub next_id : ℕ → ℕ
next_id id = if (id + 1) % 2 ^ 32 == 0 then 1 else (id + 1) % 2 ^ 32

-- A free slot taken by a submission. Its executor fields stay as they are.
abbrev pub submitted : ℕ → ℕ → ℕ → Submission → Job → Job
submitted pid generation id req j = record j {
  circuit = copied req.circuit_len req.circuit j.circuit;
  circuit_len = req.circuit_len;
  owner_pid = pid;
  owner_generation = generation;
  job_id = id;
  state = pending;
}

-- The charge of a submission that is accepted, and its record: DEVICE and WRITE.
unfoldable pub accept : ℕ → ℕ → Kernel → Kernel
accept now pid k =
    let caps = k.caps in
    record k {
      intents = manifest_qsub_charge pid k.intents;
      caps = record caps {
        ledger =
            audit_record now (event_ok Kind.qsubmit pid resource_device device_id_qpu 2)
              caps.ledger;
      };
    }

-- From the length check on.
unfoldable pub enqueue_job : ℕ → ℕ → Submission → Broker → Kernel → ℕ × Broker × Kernel
enqueue_job now pid req b k =
    if req.circuit_len == 0 || ltb circuit_max req.circuit_len
    then (einval, b, k)
    else (if leb inflight_max (inflight pid b.jobs max_jobs 0)
        then (eio, b, k)
        else (elim (find_first max_jobs 0 (λ i. is_free (b.jobs i).state)) [
          | none ↦ (eio, b, k)
          | some i ↦ (
            b.next_job_id,
            record b {
              jobs = update b.jobs i (
                  submitted pid (process_get_generation pid k.processes) b.next_job_id req
                    (b.jobs i));
              next_job_id = next_id b.next_job_id;
            },
            accept now pid k,
          )
        ]))

unfoldable pub qpu_submit : ℕ → ℕ → Submission → Broker → Kernel → ℕ × Broker × Kernel
qpu_submit now pid req b k =
    let caps = k.caps in
    let (ok, l) = manifest_qsub_precheck now pid k.intents caps.ledger in
    let k' : Kernel = record k { caps = record caps { ledger = l } } in
    if ok then enqueue_job now pid req b k' else (eperm, b, k')

-- One round of the search for the oldest pending job: slot `i` against the best so far.
abbrev pub older : (ℕ → Job) → ℕ → Option ℕ → Option ℕ
older jobs i none = if is_pending (jobs i).state then some i else none
older jobs i (some best) =
    if is_pending (jobs i).state && ltb (jobs i).job_id (jobs best).job_id
    then some i
    else some best

unfoldable pub oldest : (ℕ → Job) → ℕ → ℕ → Option ℕ → Option ℕ
oldest jobs zero i best = best
oldest jobs (suc n) i best = oldest jobs n (i + 1) (older jobs i best)

abbrev pub fetched_by : ℕ → ℕ → Job → Job
fetched_by pid generation j = record j {
  state = running;
  executor_pid = pid;
  executor_generation = generation;
}

-- What the executor is given; bytes past the circuit stay zero, as the caller cleared them.
abbrev pub handed_out : Job → Fetched
handed_out j = record {
  job_id = j.job_id;
  owner_pid = j.owner_pid;
  circuit_len = j.circuit_len;
  circuit = copied j.circuit_len j.circuit (λ _. 0);
}

unfoldable pub qpu_fetch : ℕ → Processes → Broker → ℕ × Option Fetched × Broker
qpu_fetch pid ps b = elim (oldest b.jobs max_jobs 0 none) [
  | none ↦ (0, none, b)
  | some i ↦ (
    (b.jobs i).job_id,
    some (handed_out (b.jobs i)),
    record b { jobs = update b.jobs i (fetched_by pid (process_get_generation pid ps) (b.jobs i)) },
  )
]

-- A job with the result that its executor reports.
abbrev pub completed : Completion → Job → Job
completed req j = record j {
  status = if req.status == 0 then 0 else status_execfail;
  result_len = req.result_len;
  result = copied req.result_len req.result j.result;
  state = done;
}

unfoldable pub complete_job : ℕ → ℕ → Completion → ℕ → Broker → Kernel → ℕ × Broker × Kernel
complete_job now pid req i b k =
    let j = b.jobs i in
    if not (j.executor_pid == pid)
      || not (j.executor_generation == process_get_generation pid k.processes)
    then (eperm, b, deny now pid resource_device device_id_qpu 4 k)
    else (
      0,
      record b { jobs = update b.jobs i (if j.orphaned then slot_free else completed req j) },
      k,
    )

-- The running job of this number.
abbrev pub find_running : ℕ → Broker → Option ℕ
find_running id b =
    find_first max_jobs 0 (λ i. is_running (b.jobs i).state && (b.jobs i).job_id == id)

unfoldable pub qpu_complete : ℕ → ℕ → Completion → Broker → Kernel → ℕ × Broker × Kernel
qpu_complete now pid req b k =
    if ltb result_max req.result_len then (einval, b, k) else (elim (find_running req.job_id b) [
      | none ↦ (enoent, b, k)
      | some i ↦ complete_job now pid req i b k
    ])

abbrev pub waiting : ℕ → Polled
waiting s = record { state = s; status = 0; result_len = 0; result = λ _. 0 }

abbrev pub result_of : Job → Polled
result_of j = record {
  state = 3;
  status = j.status;
  result_len = j.result_len;
  result = copied j.result_len j.result (λ _. 0);
}

-- The three states of an owner's job: QPU_POLL_PENDING, QPU_POLL_RUNNING, QPU_POLL_DONE. The state is
-- that of slot `i`.
unfoldable pub poll_state : JobState → ℕ → Broker → ℕ × Option Polled × Broker
poll_state pending i b = (1, some (waiting 1), b)
poll_state running i b = (2, some (waiting 2), b)
poll_state done i b =
    (3, some (result_of (b.jobs i)), record b { jobs = update b.jobs i slot_free })
poll_state free i b =
    (3, some (result_of (b.jobs i)), record b { jobs = update b.jobs i slot_free })

abbrev pub find_live : ℕ → Broker → Option ℕ
find_live id b =
    find_first max_jobs 0 (λ i. not (is_free (b.jobs i).state) && (b.jobs i).job_id == id)

unfoldable pub qpu_poll : ℕ → ℕ → Processes → Broker → ℕ × Option Polled × Broker
qpu_poll pid id ps b = elim (find_live id b) [
  | none ↦ (enoent, none, b)
  | some i ↦
      let j = b.jobs i in
      if not (j.owner_pid == pid) || not (j.owner_generation == process_get_generation pid ps)
      then (enoent, none, b)
      else poll_state j.state i b
]

abbrev pub failed : Job → Job
failed j = record j { state = done; status = status_execfail; result_len = 0 }

-- One slot under the death sweep for `pid`.
unfoldable pub swept : ℕ → Job → Job
swept pid j =
    if is_free j.state
    then j
    else (if j.owner_pid == pid
        then (if is_running j.state then record j { orphaned = true } else slot_free)
        else (if j.executor_pid == pid && is_running j.state
            then (if j.orphaned then slot_free else failed j)
            else j))

unfoldable pub qpu_on_process_destroy : ℕ → Broker → Broker
qpu_on_process_destroy pid b = record b {
  jobs = λ i. if ltb i max_jobs then swept pid (b.jobs i) else b.jobs i;
}
