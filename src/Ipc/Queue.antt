-- ===== src/Ipc/Queue.antt =====
-- ipc.c: messages, the entries they are kept in, and the queue operations. A queue's linked list is
-- the list of its messages, head first: `head` and `tail` are null when it is empty.
use quantum_os.Prelude.{
  ℕ, ◌+◌, ◌-◌, ◌%◌, ◌^◌, Bool, not, Option, none, some, List, [], ◌∷◌, ◌++◌, leb, ◌==◌,
  if◌then◌else◌,
}

-- IPC_MAX_QUEUE_SIZE and IPC_PID_ANY
abbrev pub max_queue_size : ℕ
max_queue_size = 64

abbrev pub pid_any : ℕ
pid_any = 0xFFFFFFFF

-- `ipc_result_t`
pub data IpcResult : Type 0 where
  success invalid_receiver invalid_sender message_too_large permission_denied buffer_full :
      IpcResult
  timeout no_message invalid_port port_closed out_of_memory invalid_arg already_exists : IpcResult
  not_supported not_found : IpcResult

-- `ipc_message_t`
pub record Message : Type 0 where
  pub sender_id : ℕ
  pub receiver_id : ℕ
  pub message_type : ℕ
  pub message_id : ℕ
  pub reply_to : ℕ
  pub length : ℕ
  pub timestamp : ℕ
  pub deadline : ℕ
  pub payload : ℕ → ℕ

-- IPC_PORT_CLOSED, IPC_PORT_OPEN and IPC_PORT_LISTENING
pub data PortState : Type 0 where
  closed open_ listening : PortState

-- `ipc_queue_t`
pub record Queue : Type 0 where
  pub messages : List Message
  pub count : ℕ
  pub max_size : ℕ
  pub dropped : ℕ
  pub state : PortState

-- The length of the list of free entries, the message counter and the statistics.
pub record Shared : Type 0 where
  pub free_entries : ℕ
  pub next_message_id : ℕ
  pub total_sent : ℕ
  pub total_received : ℕ
  pub total_dropped : ℕ

-- `memory` says whether `kmalloc` would give an entry.
unfoldable pub queue_alloc_entry : Bool → Shared → Option Shared
queue_alloc_entry memory w =
    if not (w.free_entries == 0)
    then some (record w { free_entries = w.free_entries - 1 })
    else (if memory then some w else none)

abbrev pub queue_free_entry : Shared → Shared
queue_free_entry w = record w { free_entries = w.free_entries + 1 }

-- A message that found no place, counted.
abbrev pub drop_in : Queue → Queue
drop_in q = record q { dropped = (q.dropped + 1) % 2 ^ 32 }

abbrev pub count_dropped : Shared → Shared
count_dropped w = record w { total_dropped = (w.total_dropped + 1) % 2 ^ 64 }

unfoldable pub queue_enqueue : Bool → Message → Queue → Shared → IpcResult × Queue × Shared
queue_enqueue memory m q w =
    if leb q.max_size q.count
    then (buffer_full, drop_in q, count_dropped w)
    else (elim (queue_alloc_entry memory w) [
      | none ↦ (out_of_memory, drop_in q, count_dropped w)
      | some w' ↦ (
        success,
        record q { messages = q.messages ++ m ∷ []; count = (q.count + 1) % 2 ^ 32 },
        w',
      )
    ])

-- The first message of this sender, and the list without it.
unfoldable pub take_from : ℕ → List Message → Option (Message × List Message)
take_from sender [] = none
take_from sender (m ∷ ms) =
    let rest = take_from sender ms in
    if m.sender_id == sender
    then some (m, ms)
    else (elim rest [ none ↦ none | some (x, r) ↦ some (x, m ∷ r) ])

abbrev pub take_head : List Message → Option (Message × List Message)
take_head [] = none
take_head (m ∷ ms) = some (m, ms)

-- Which message a filter selects; a null pointer and IPC_PID_ANY select the head.
unfoldable pub take_filtered : Option ℕ → List Message → Option (Message × List Message)
take_filtered none ms = take_head ms
take_filtered (some sender) ms = if sender == pid_any then take_head ms else take_from sender ms

-- `has_out` says that there is a place for the message. The filter is overwritten by the sender of
-- the message that is given.
unfoldable pub queue_dequeue :
    Option ℕ → Bool → Queue → Shared → IpcResult × Option Message × Queue × Shared
queue_dequeue filter has_out q w =
    if not has_out
    then (invalid_arg, none, q, w)
    else (if q.count == 0
        then (no_message, none, q, w)
        else (elim (take_filtered filter q.messages) [
          | none ↦ (no_message, none, q, w)
          | some (m, rest) ↦ (
            success,
            some m,
            record q { messages = rest; count = (q.count + 2 ^ 32 - 1) % 2 ^ 32 },
            queue_free_entry w,
          )
        ]))

-- A queue that is opened anew, without its free entries.
abbrev pub fresh_queue : PortState → Queue
fresh_queue state = record {
  messages = [];
  count = 0;
  max_size = max_queue_size;
  dropped = 0;
  state = state;
}
