-- ===== src/Process/Queue.antt =====
-- process.c: the ready queues, one doubly linked list for a priority, the change of state that keeps
-- them, and the change of the current process.
use quantum_os.Prelude.{
  ℕ, ◌+◌, ◌-◌, ◌%◌, ◌^◌, Bool, false, not, Option, none, some, ltb, ◌==◌, if◌then◌else◌, update,
  find_first,
}
use quantum_os.Process.{Process, Processes, ProcessState, ProcessStatus, is_ready, process_is_valid}
use quantum_os.Process.ProcessStatus.{success, invalid_pid}

-- PRIORITY_KERNEL
abbrev pub priority_kernel : ℕ
priority_kernel = 5

-- A store to one field or more of an entry.
abbrev pub store : ℕ → (Process → Process) → Processes → Processes
store pid f ps = record ps { table = update ps.table pid (f (ps.table pid)) }

-- A store through a pointer that may be null.
abbrev pub store_at : Option ℕ → (Process → Process) → Processes → Processes
store_at none f ps = ps
store_at (some pid) f ps = store pid f ps

abbrev pub points_to : Option ℕ → ℕ → Bool
points_to none pid = false
points_to (some k) pid = k == pid

unfoldable pub add_to_ready_queue : ℕ → Processes → Processes
add_to_ready_queue pid ps =
    let priority = (ps.table pid).priority in
    let head = ps.ready_queue priority in
    let linked =
      store_at head (λ q. record q { prev = some pid })
        (store pid (λ p. record p { next = head; prev = none }) ps) in
    if ltb priority_kernel priority
    then ps
    else record linked { ready_queue = update ps.ready_queue priority (some pid) }

-- The queue that it leads, if any, comes to begin with the entry after it.
abbrev pub lead_past : Option ℕ → Option ℕ → Processes → Processes
lead_past none after ps = ps
lead_past (some k) after ps = record ps { ready_queue = update ps.ready_queue k after }

-- The entry before it, or the head of the queue that it leads, comes to point past it.
abbrev pub bypass : Option ℕ → ℕ → Processes → Processes
bypass (some before) pid ps = store before (λ q. record q { next = (ps.table pid).next }) ps
bypass none pid ps =
    lead_past (find_first (priority_kernel + 1) 0 (λ k. points_to (ps.ready_queue k) pid))
      (ps.table pid).next ps

unfoldable pub remove_from_ready_queue : ℕ → Processes → Processes
remove_from_ready_queue pid ps =
    let bypassed = bypass (ps.table pid).prev pid ps in
    let p = bypassed.table pid in
    store pid (λ q. record q { next = none; prev = none })
      (store_at p.next (λ q. record q { prev = p.prev }) bypassed)

unfoldable pub process_set_state : ℕ → ProcessState → Processes → ProcessStatus × Processes
process_set_state pid new_state ps =
    let left = if is_ready (ps.table pid).state then remove_from_ready_queue pid ps else ps in
    let changed = store pid (λ p. record p { state = new_state }) left in
    if not (process_is_valid pid ps)
    then (invalid_pid, ps)
    else (success, if is_ready new_state then add_to_ready_queue pid changed else changed)

-- The process that leaves the processor is charged for its slice. Times and totals are 64 bits wide.
abbrev pub charged : ℕ → Process → Process
charged now p =
    let slice = (now + 2 ^ 64 - p.last_scheduled) % 2 ^ 64 in
    record p { runtime_last = slice; runtime_total = (p.runtime_total + slice) % 2 ^ 64 }

-- `now` is what `timer_get_ticks` returns.
unfoldable pub process_switch_to : ℕ → ℕ → Processes → ProcessStatus × Processes
process_switch_to now pid ps =
    let counted = record ps {
      current = some pid;
      statistics = record (ps.statistics) {
        context_switches = (ps.statistics.context_switches + 1) % 2 ^ 64;
      };
    } in
    let left = store_at ps.current (charged now) counted in
    if not (process_is_valid pid ps) then (invalid_pid, ps) else (
      success,
      store pid (λ p. record p { last_scheduled = now; sched_picks = (p.sched_picks + 1) % 2 ^ 64 })
          left,
    )
