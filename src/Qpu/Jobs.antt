-- ===== src/Qpu/Jobs.antt =====
-- qpu.c and qpu.h: the job table of the broker and its slots.
use quantum_os.Prelude.{ℕ, zero, suc, ◌+◌, Bool, true, false, not, ◌&&◌, ltb, ◌==◌, if◌then◌else◌}

-- QPU_MAX_JOBS, QPU_INFLIGHT_MAX, QPU_CIRCUIT_MAX and QPU_RESULT_MAX
abbrev pub max_jobs : ℕ
max_jobs = 4

abbrev pub inflight_max : ℕ
inflight_max = 2

abbrev pub circuit_max : ℕ
circuit_max = 256

abbrev pub result_max : ℕ
result_max = 128

-- QPU_STATUS_EXECFAIL; QPU_STATUS_OK is 0.
abbrev pub status_execfail : ℕ
status_execfail = 1

-- The QPU_JOB_* states
pub data JobState : Type 0 where
  free pending running done : JobState

-- `qpu_job_t`. The byte arrays are functions of the index.
pub record Job : Type 0 where
  pub state : JobState
  pub orphaned : Bool
  pub status : ℕ
  pub job_id : ℕ
  pub owner_pid : ℕ
  pub owner_generation : ℕ
  pub executor_pid : ℕ
  pub executor_generation : ℕ
  pub circuit_len : ℕ
  pub result_len : ℕ
  pub circuit : ℕ → ℕ
  pub result : ℕ → ℕ

-- `jobs` and `next_job_id`
pub record Broker : Type 0 where
  pub jobs : ℕ → Job
  pub next_job_id : ℕ

-- `qpu_submit_req_t`
pub record Submission : Type 0 where
  pub circuit_len : ℕ
  pub circuit : ℕ → ℕ

-- `qpu_fetch_out_t`
pub record Fetched : Type 0 where
  pub job_id : ℕ
  pub owner_pid : ℕ
  pub circuit_len : ℕ
  pub circuit : ℕ → ℕ

-- `qpu_complete_req_t`
pub record Completion : Type 0 where
  pub job_id : ℕ
  pub status : ℕ
  pub result_len : ℕ
  pub result : ℕ → ℕ

-- `qpu_poll_out_t`
pub record Polled : Type 0 where
  pub state : ℕ
  pub status : ℕ
  pub result_len : ℕ
  pub result : ℕ → ℕ

abbrev pub is_free : JobState → Bool
is_free free = true
is_free s = false

abbrev pub is_pending : JobState → Bool
is_pending pending = true
is_pending s = false

abbrev pub is_running : JobState → Bool
is_running running = true
is_running s = false

-- The first `len` bytes of `src` over `dst`.
abbrev pub copied : ℕ → (ℕ → ℕ) → (ℕ → ℕ) → ℕ → ℕ
copied len src dst k = if ltb k len then src k else dst k

-- What `slot_free` leaves.
abbrev pub slot_free : Job
slot_free = record {
  state = free;
  orphaned = false;
  status = 0;
  job_id = 0;
  owner_pid = 0;
  owner_generation = 0;
  executor_pid = 0;
  executor_generation = 0;
  circuit_len = 0;
  result_len = 0;
  circuit = λ _. 0;
  result = λ _. 0;
}

abbrev pub is_inflight : ℕ → Job → Bool
is_inflight pid j = not (is_free j.state) && j.owner_pid == pid

-- How many of `n` slots from slot `i` are the owner's.
unfoldable pub inflight : ℕ → (ℕ → Job) → ℕ → ℕ → ℕ
inflight pid jobs zero i = 0
inflight pid jobs (suc n) i =
    let rest = inflight pid jobs n (i + 1) in if is_inflight pid (jobs i) then rest + 1 else rest
