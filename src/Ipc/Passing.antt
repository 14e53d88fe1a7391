-- ===== src/Ipc/Passing.antt =====
-- ipc.c: sending to a process and receiving. `current` is the pid of the running process, or 0.
use quantum_os.Prelude.{
  ℕ, ◌+◌, ◌-◌, ◌==◌, ◌*◌, ◌/◌, ◌%◌, ◌^◌, Bool, true, not, ◌||◌, Option, none, some, leb, ltb,
  if◌then◌else◌, update, bit_or,
}
use quantum_os.Process.{Processes}
use quantum_os.Scheduler.{scheduler_boost_if_ready}
use quantum_os.Ipc.Queue.{
  IpcResult, success, invalid_receiver, message_too_large, invalid_arg, not_supported, Message,
  Queue, Shared, queue_enqueue, queue_dequeue,
}
use quantum_os.Ipc.State.{Ipc, max_processes, max_message_size}

-- IPC_MSG_REPLY, and the flags of a circuit handoff
abbrev pub msg_reply : ℕ
msg_reply = 0x0002

abbrev pub msg_quantum : ℕ
msg_quantum = 0x0008

abbrev pub msg_circuit_handoff : ℕ
msg_circuit_handoff = 0x0010

-- The header that every send writes, and the counter it takes the number from. The time is 0.
abbrev pub stamped : ℕ → ℕ → Message → Shared → Message
stamped sender receiver m w = record m {
  sender_id = sender;
  receiver_id = receiver;
  message_id = w.next_message_id;
  timestamp = 0;
}

abbrev pub numbered : Shared → Shared
numbered w = record w { next_message_id = (w.next_message_id + 1) % 2 ^ 32 }

-- `total_sent++` and `total_received++`, on success.
abbrev pub count_sent : IpcResult → Shared → Shared
count_sent success w = record w { total_sent = (w.total_sent + 1) % 2 ^ 64 }
count_sent refusal w = w

abbrev pub count_received : IpcResult → Shared → Shared
count_received success w = record w { total_received = (w.total_received + 1) % 2 ^ 64 }
count_received refusal w = w

-- A stamped message put in a queue, and what was sent counted.
unfoldable pub deliver : ℕ → ℕ → Bool → Message → Queue → Shared → IpcResult × Queue × Shared
deliver sender receiver memory m q w =
    let (r, q', w') = queue_enqueue memory (stamped sender receiver m w) q (numbered w) in
    (r, q', count_sent r w')

-- A message taken from a queue, and counted.
unfoldable pub collect :
    Option ℕ → Bool → Queue → Shared → IpcResult × Option Message × Queue × Shared
collect filter has_out q w =
    let (r, m, q', w') = queue_dequeue filter has_out q w in (r, m, q', count_received r w')

-- The checks of `ipc_send`, in their order.
unfoldable pub send_refusal : ℕ → Message → Ipc → Option IpcResult
send_refusal receiver m s =
    if leb max_processes receiver
    then some invalid_receiver
    else (if not (s.queue_initialized receiver)
        then some invalid_receiver
        else (if ltb max_message_size m.length then some message_too_large else none))

-- The receiver is boosted only for a message that landed.
abbrev pub boosted : IpcResult → ℕ → Processes → Processes
boosted success pid ps = scheduler_boost_if_ready pid ps
boosted refusal pid ps = ps

-- `none` is a null message.
unfoldable pub ipc_send :
    ℕ → ℕ → Bool → Option Message → Ipc → Processes → IpcResult × Ipc × Processes
ipc_send current receiver memory none s ps =
    if not s.ipc_initialized then (not_supported, s, ps) else (invalid_arg, s, ps)
ipc_send current receiver memory (some m) s ps =
    if not s.ipc_initialized then (not_supported, s, ps) else (elim (send_refusal receiver m s) [
      | some refusal ↦ (refusal, s, ps)
      | none ↦
          let (r, q, w) = deliver current receiver memory m (s.process_queues receiver) s.shared in
          (
            r,
            record s { process_queues = update s.process_queues receiver q; shared = w },
            boosted r receiver ps,
          )
    ])

unfoldable pub ipc_receive : ℕ → Option ℕ → Bool → Ipc → IpcResult × Option Message × Ipc
ipc_receive current filter has_out s =
    if not s.ipc_initialized
    then (not_supported, none, s)
    else (if not has_out
        then (invalid_arg, none, s)
        else (if leb max_processes current || not (s.queue_initialized current)
            then (invalid_receiver, none, s)
            else (let (r, m, q, w) = collect filter true (s.process_queues current) s.shared in
                (
                  r,
                  m,
                  record s { process_queues = update s.process_queues current q; shared = w },
                ))))

unfoldable pub ipc_reply :
    ℕ → Bool → Option Message → Option Message → Ipc → Processes → IpcResult × Ipc × Processes
ipc_reply current memory none reply s ps = (invalid_arg, s, ps)
ipc_reply current memory (some m) none s ps = (invalid_arg, s, ps)
ipc_reply current memory (some m) (some reply) s ps =
    ipc_send current m.sender_id memory
      (some (record reply {
        message_type = bit_or reply.message_type msg_reply;
        reply_to = m.message_id;
      }))
      s ps

-- The request sent, then one attempt to take an answer of the receiver's.
unfoldable pub ipc_call :
    ℕ
    → ℕ
    → Bool
    → Option Message
    → Bool
    → Ipc
    → Processes
    → IpcResult × Option Message × Ipc × Processes
ipc_call current receiver memory none has_out s ps = (invalid_arg, none, s, ps)
ipc_call current receiver memory (some m) has_out s ps =
    if not has_out
    then (invalid_arg, none, s, ps)
    else (let (sent, s', ps') = ipc_send current receiver memory (some m) s ps in
        elim sent [
          | success ↦
              let (r, answer, s'') = ipc_receive current (some receiver) true s' in
              (r, answer, s'', ps')
          | refusal ↦ (refusal, none, s', ps')
        ])

-- A zeroed message that carries a circuit's number in its first four bytes.
abbrev pub handoff_message : ℕ → ℕ → Message
handoff_message circuit_id deadline = record {
  sender_id = 0;
  receiver_id = 0;
  message_type = bit_or msg_quantum msg_circuit_handoff;
  message_id = 0;
  reply_to = 0;
  length = 4;
  timestamp = 0;
  deadline = deadline;
  payload = λ i. if ltb i 4 then circuit_id / 2 ^ (8 * i) % 2 ^ 8 else 0;
}

unfoldable pub ipc_quantum_circuit_handoff :
    ℕ → ℕ → ℕ → ℕ → Bool → Ipc → Processes → IpcResult × Ipc × Processes
ipc_quantum_circuit_handoff current receiver circuit_id deadline memory s ps =
    ipc_send current receiver memory (some (handoff_message circuit_id deadline)) s ps

-- A zeroed message with a packed structure: the number in four bytes, the result in one, and the
-- eight bytes of the probability.
abbrev pub measurement_message : ℕ → ℕ → (ℕ → ℕ) → Message
measurement_message measurement_id result probability = record {
  sender_id = 0;
  receiver_id = 0;
  message_type = msg_quantum;
  message_id = 0;
  reply_to = 0;
  length = 13;
  timestamp = 0;
  deadline = 0;
  payload = λ i.
      if ltb i 4
      then measurement_id / 2 ^ (8 * i) % 2 ^ 8
      else (if i == 4 then result else (if ltb i 13 then probability (i - 5) else 0));
}

unfoldable pub ipc_quantum_measurement_result :
    ℕ → ℕ → ℕ → ℕ → (ℕ → ℕ) → Bool → Ipc → Processes → IpcResult × Ipc × Processes
ipc_quantum_measurement_result current receiver measurement_id result probability memory s ps =
    ipc_send current receiver memory (some (measurement_message measurement_id result probability))
      s ps

unfoldable pub ipc_get_queue_depth : ℕ → Ipc → ℕ
ipc_get_queue_depth current s =
    if leb max_processes current || not (s.queue_initialized current)
    then 0
    else (s.process_queues current).count

abbrev pub ipc_has_messages : ℕ → Ipc → Bool
ipc_has_messages current s = ltb 0 (ipc_get_queue_depth current s)

-- The counters of what was sent, received and dropped, in 32 bits.
abbrev pub ipc_get_stats : Ipc → ℕ × ℕ × ℕ
ipc_get_stats s =
    let w = s.shared in (w.total_sent % 2 ^ 32, w.total_received % 2 ^ 32, w.total_dropped % 2 ^ 32)
