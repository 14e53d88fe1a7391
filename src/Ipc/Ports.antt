-- ===== src/Ipc/Ports.antt =====
-- ipc.c: named ports, and what is cleaned up with a process.
use quantum_os.Prelude.{
  ℕ, zero, suc, ◌+◌, ◌%◌, ◌^◌, Bool, true, false, not, ◌&&◌, Option, none, some, List, [], length,
  leb, ◌==◌, if◌then◌else◌, update, find_first,
}
use quantum_os.Ipc.Queue.{
  IpcResult, success, permission_denied, invalid_port, port_closed, out_of_memory, invalid_arg,
  already_exists, not_supported, not_found, pid_any, Message, Shared, PortState, closed, open_,
  listening, fresh_queue,
}
use quantum_os.Ipc.State.{
  Ipc, Port, max_ports, max_processes, name_size, pid_kernel, is_closed, str_copy, find_port_by_id,
  find_port_by_name,
}
use quantum_os.Ipc.Passing.{deliver, collect}

abbrev pub is_listening : PortState → Bool
is_listening listening = true
is_listening s = false

-- The port that `ipc_port_create` writes.
abbrev pub opened : ℕ → ℕ → List ℕ → Port
opened id owner name = record {
  port_id = id;
  owner_id = owner;
  name = str_copy name_size name;
  state = listening;
  queue = fresh_queue open_;
}

abbrev pub free_port : Ipc → Option ℕ
free_port s = find_first max_ports 0 (λ i. is_closed (s.ports i).state)

-- `none` is a null name; the option of the result is what is written through `port_id`.
unfoldable pub ipc_port_create : ℕ → Option (List ℕ) → Bool → Ipc → IpcResult × Option ℕ × Ipc
ipc_port_create current none has_out s =
    if not s.ipc_initialized then (not_supported, none, s) else (invalid_arg, none, s)
ipc_port_create current (some name) has_out s =
    if not s.ipc_initialized
    then (not_supported, none, s)
    else (if not has_out then (invalid_arg, none, s) else (elim (find_port_by_name name s) [
      | some i ↦ (already_exists, none, s)
      | none ↦ elim (free_port s) [
        | none ↦ (out_of_memory, none, s)
        | some i ↦ (
          success,
          some s.next_port_id,
          record s {
            ports = update s.ports i (opened s.next_port_id current name);
            next_port_id = (s.next_port_id + 1) % 2 ^ 32;
          },
        )
      ]
    ]))

-- The entries of a queue that is emptied go to the free list.
abbrev pub reclaim : List Message → Shared → Shared
reclaim ms w = record w { free_entries = w.free_entries + length ms }

-- A destroyed port; its queue's count and tail are left as they are.
abbrev pub destroyed : Port → Port
destroyed p =
    let q = p.queue in
    record p { port_id = 0; name = []; state = closed; queue = record q { messages = [] } }

unfoldable pub ipc_port_destroy : ℕ → ℕ → Ipc → IpcResult × Ipc
ipc_port_destroy current id s = elim (find_port_by_id id s) [
  | none ↦ (invalid_port, s)
  | some i ↦
      if not ((s.ports i).owner_id == current) && not (current == pid_kernel)
      then (permission_denied, s)
      else (
        success,
        record s {
          ports = update s.ports i (destroyed (s.ports i));
          shared = reclaim (s.ports i).queue.messages s.shared;
        },
      )
]

unfoldable pub ipc_port_lookup : Option (List ℕ) → Bool → Ipc → IpcResult × Option ℕ
ipc_port_lookup none has_out s = (invalid_arg, none)
ipc_port_lookup (some name) has_out s =
    if not has_out then (invalid_arg, none) else (elim (find_port_by_name name s) [
      | none ↦ (not_found, none)
      | some i ↦ (success, some (s.ports i).port_id)
    ])

unfoldable pub ipc_port_send : ℕ → ℕ → Bool → Message → Ipc → IpcResult × Ipc
ipc_port_send current id memory m s = elim (find_port_by_id id s) [
  | none ↦ (invalid_port, s)
  | some i ↦
      let p = s.ports i in
      if not (is_listening p.state)
      then (port_closed, s)
      else (let (r, q, w) = deliver current p.owner_id memory m p.queue s.shared in
          (r, record s { ports = update s.ports i (record p { queue = q }); shared = w }))
]

unfoldable pub ipc_port_receive : ℕ → ℕ → Bool → Ipc → IpcResult × Option Message × Ipc
ipc_port_receive current id has_out s = elim (find_port_by_id id s) [
  | none ↦ (invalid_port, none, s)
  | some i ↦
      let p = s.ports i in
      if not (p.owner_id == current)
      then (permission_denied, none, s)
      else (let (r, m, q, w) = collect (some pid_any) has_out p.queue s.shared in
          (r, m, record s { ports = update s.ports i (record p { queue = q }); shared = w }))
]

-- One round of the loop over the ports, and `n` rounds from port `i`.
unfoldable pub cleanup_port : ℕ → ℕ → ℕ → Ipc → Ipc
cleanup_port current pid i s =
    if (s.ports i).owner_id == pid && not (is_closed (s.ports i).state)
    then (ipc_port_destroy current (s.ports i).port_id s).1
    else s

unfoldable pub cleanup_ports : ℕ → ℕ → ℕ → ℕ → Ipc → Ipc
cleanup_ports current pid zero i s = s
cleanup_ports current pid (suc n) i s =
    cleanup_ports current pid n (i + 1) (cleanup_port current pid i s)

-- The queue of the process, emptied and closed.
unfoldable pub close_queue : ℕ → Ipc → Ipc
close_queue pid s =
    let q = s.process_queues pid in
    record s {
      process_queues =
          update s.process_queues pid (record q { messages = []; count = 0; state = closed });
      queue_initialized = update s.queue_initialized pid false;
      shared = reclaim q.messages s.shared;
    }

unfoldable pub ipc_process_cleanup : ℕ → ℕ → Ipc → IpcResult × Ipc
ipc_process_cleanup current pid s =
    if leb max_processes pid
    then (invalid_arg, s)
    else (if not (s.queue_initialized pid)
        then (success, s)
        else (success, cleanup_ports current pid max_ports 0 (close_queue pid s)))
