-- ===== src/Ipc/Channels.antt =====
-- ipc.c: channels between two processes.
use quantum_os.Prelude.{
  ℕ, ◌+◌, ◌%◌, ◌^◌, Bool, true, false, not, ◌||◌, Option, none, some, [], leb, ◌==◌, if◌then◌else◌,
  update, find_first,
}
use quantum_os.Ipc.Queue.{
  IpcResult, success, permission_denied, out_of_memory, invalid_arg, not_supported, not_found,
  pid_any, Message, open_, fresh_queue,
}
use quantum_os.Ipc.State.{Ipc, Channel, max_channels, max_processes, find_channel}
use quantum_os.Ipc.Passing.{deliver, collect}
use quantum_os.Ipc.Ports.{reclaim}

abbrev pub free_channel : Ipc → Option ℕ
free_channel s = find_first max_channels 0 (λ i. not (s.channels i).is_active)

-- The channel that `ipc_channel_create` writes.
abbrev pub connected : ℕ → ℕ → ℕ → Channel
connected id a b = record {
  channel_id = id;
  endpoint_a = a;
  endpoint_b = b;
  queue_a_to_b = fresh_queue open_;
  queue_b_to_a = fresh_queue open_;
  is_active = true;
}

unfoldable pub ipc_channel_create : ℕ → ℕ → Bool → Ipc → IpcResult × Option ℕ × Ipc
ipc_channel_create a b has_out s =
    if not s.ipc_initialized
    then (not_supported, none, s)
    else (if not has_out
        then (invalid_arg, none, s)
        else (if leb max_processes a || leb max_processes b
            then (invalid_arg, none, s)
            else (elim (free_channel s) [
              | none ↦ (out_of_memory, none, s)
              | some i ↦ (
                success,
                some s.next_channel_id,
                record s {
                  channels = update s.channels i (connected s.next_channel_id a b);
                  next_channel_id = (s.next_channel_id + 1) % 2 ^ 32;
                },
              )
            ])))

-- A destroyed channel; the counts and tails of its queues are left as they are.
abbrev pub disconnected : Channel → Channel
disconnected c =
    let ab = c.queue_a_to_b in
    let ba = c.queue_b_to_a in
    record c {
      queue_a_to_b = record ab { messages = [] };
      queue_b_to_a = record ba { messages = [] };
      is_active = false;
      channel_id = 0;
    }

unfoldable pub ipc_channel_destroy : ℕ → Ipc → IpcResult × Ipc
ipc_channel_destroy id s = elim (find_channel id s) [
  | none ↦ (not_found, s)
  | some i ↦ (
    success,
    record s {
      channels = update s.channels i (disconnected (s.channels i));
      shared =
          reclaim (s.channels i).queue_b_to_a.messages
            (reclaim (s.channels i).queue_a_to_b.messages s.shared);
    },
  )
]

-- The message put in the queue that leads away from the sender.
unfoldable pub channel_deliver : ℕ → Bool → Message → ℕ → Ipc → IpcResult × Ipc
channel_deliver current memory m i s =
    let c = s.channels i in
    if current == c.endpoint_a
    then (let (r, q, w) = deliver current c.endpoint_b memory m c.queue_a_to_b s.shared in
        (
          r,
          record s { channels = update s.channels i (record c { queue_a_to_b = q }); shared = w },
        ))
    else (if current == c.endpoint_b
        then (let (r, q, w) = deliver current c.endpoint_a memory m c.queue_b_to_a s.shared in
            (
              r,
              record s {
                channels = update s.channels i (record c { queue_b_to_a = q });
                shared = w;
              },
            ))
        else (permission_denied, s))

unfoldable pub ipc_channel_send : ℕ → ℕ → Bool → Message → Ipc → IpcResult × Ipc
ipc_channel_send current id memory m s = elim (find_channel id s) [
  | none ↦ (not_found, s)
  | some i ↦ channel_deliver current memory m i s
]

-- A message taken from the queue that leads to the receiver.
unfoldable pub channel_collect : ℕ → Bool → ℕ → Ipc → IpcResult × Option Message × Ipc
channel_collect current has_out i s =
    let c = s.channels i in
    if current == c.endpoint_a
    then (let (r, m, q, w) = collect (some pid_any) has_out c.queue_b_to_a s.shared in
        (
          r,
          m,
          record s { channels = update s.channels i (record c { queue_b_to_a = q }); shared = w },
        ))
    else (if current == c.endpoint_b
        then (let (r, m, q, w) = collect (some pid_any) has_out c.queue_a_to_b s.shared in
            (
              r,
              m,
              record s {
                channels = update s.channels i (record c { queue_a_to_b = q });
                shared = w;
              },
            ))
        else (permission_denied, none, s))

unfoldable pub ipc_channel_receive : ℕ → ℕ → Bool → Ipc → IpcResult × Option Message × Ipc
ipc_channel_receive current id has_out s = elim (find_channel id s) [
  | none ↦ (not_found, none, s)
  | some i ↦ channel_collect current has_out i s
]
