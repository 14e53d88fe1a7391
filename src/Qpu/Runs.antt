-- ===== src/Qpu/Runs.antt =====
-- Every run of the calls of qpu.c, from the empty job table.
use quantum_os.Prelude.{ℕ, ◌≡◌, List, [], ◌∷◌}
use quantum_os.Process.{Processes}
use quantum_os.Syscall.Gate.{Kernel}
use quantum_os.Qpu.Jobs.{max_jobs, Broker, Submission, Completion, slot_free}
use quantum_os.Qpu.Broker.{qpu_submit, qpu_fetch, qpu_complete, qpu_poll, qpu_on_process_destroy}
use quantum_os.Qpu.Slots.{IsValid}
use quantum_os.Qpu.Kept.{
  submit-IsValid, fetch-IsValid, complete-IsValid, poll-IsValid, destroy-IsValid, empty_inflight,
}

-- The calls: each finds the kernel in some state.
pub data Call : Type 0 where
  submits : ℕ → ℕ → Submission → Kernel → Call
  fetches : ℕ → Processes → Call
  completes : ℕ → ℕ → Completion → Kernel → Call
  polls : ℕ → ℕ → Processes → Call
  dies : ℕ → Call

-- The job table after a call.
unfoldable pub perform : Call → Broker → Broker
perform (submits now pid req k) b = (qpu_submit now pid req b k).1
perform (fetches pid ps) b = (qpu_fetch pid ps b).2
perform (completes now pid req k) b = (qpu_complete now pid req b k).1
perform (polls pid id ps) b = (qpu_poll pid id ps b).2
perform (dies pid) b = qpu_on_process_destroy pid b

unfoldable pub perform_all : List Call → Broker → Broker
perform_all [] b = b
perform_all (c ∷ cs) b = perform_all cs (perform c b)

perform-IsValid : (c : Call) (b : Broker) → IsValid b → IsValid (perform c b)
unfolding perform
perform-IsValid (submits now pid req k) b v = submit-IsValid now pid req b k v
perform-IsValid (fetches pid ps) b v = fetch-IsValid pid ps b v
perform-IsValid (completes now pid req k) b v = complete-IsValid now pid req b k v
perform-IsValid (polls pid id ps) b v = poll-IsValid pid id ps b v
perform-IsValid (dies pid) b v = destroy-IsValid pid b v

perform_all-kept : (cs : List Call) (b : Broker) → IsValid b → IsValid (perform_all cs b)
unfolding perform_all
perform_all-kept [] b v = v
perform_all-kept (c ∷ cs) b v = perform_all-kept cs (perform c b) (perform-IsValid c b v)

unused-IsValid : (b : Broker) → ((i : ℕ) → b.jobs i ≡ slot_free) → IsValid b
unused-IsValid b u = record {
  scrubbed = λ i h. u i;
  capped = λ pid. empty_inflight pid b.jobs max_jobs 0 u;
}

-- After any run of submissions, fetches, completions, polls and process deaths from the empty job
-- table, whoever calls and whatever the kernel's state at each call: a free slot holds no byte and no
-- number of an earlier job, and no process owns more than two slots in flight.
pub qpu_calls-IsValid :
    (cs : List Call) (b : Broker) → ((i : ℕ) → b.jobs i ≡ slot_free) → IsValid (perform_all cs b)
qpu_calls-IsValid cs b u = perform_all-kept cs b (unused-IsValid b u)
