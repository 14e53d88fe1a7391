-- ===== src/Ipc/Delivery.antt =====
-- What `ipc_send` does, on every branch.
use quantum_os.Prelude.{
  ℕ, ◌≤◌, ◌<◌, ◌≡◌, ◌≢◌, ◌⊎◌, refl, subst, Bool, true, some, [], ◌∷◌, ◌++◌, inl, inr, arith,
  Bool-cases, Option-cases, ◌==◌, update,
}
use quantum_os.Process.{Processes}
use quantum_os.Ipc.Queue.{IpcResult, success, not_supported, Message, queue_enqueue}
use quantum_os.Ipc.State.{Ipc, max_processes, max_message_size}
use quantum_os.Ipc.Passing.{ipc_send, send_refusal, deliver, stamped, numbered, count_sent, boosted}
use quantum_os.Ipc.Order.{queue_enqueue-cases}
use quantum_os.Ipc.Valid.{IsValid}

-- A message landed at the end of the receiver's queue: its sender is the running process and its
-- number the next one, whatever the caller wrote there, its time stamp is 0, and the rest of it is the
-- caller's. It was small enough, the receiver's queue is open, and no other queue changed.
pub record Lands (current receiver : ℕ) (m : Message) (s s' : Ipc) : Type 0 where
  pub on : s.ipc_initialized ≡ true
  pub in_range : receiver < max_processes
  pub is_open : s.queue_initialized receiver ≡ true
  pub small : m.length ≤ max_message_size
  pub grown :
      (s'.process_queues receiver).messages
      ≡ (s.process_queues receiver).messages
        ++ record m {
          sender_id = current;
          receiver_id = receiver;
          message_id = s.shared.next_message_id;
          timestamp = 0;
        }
          ∷ []
  pub others : (p : ℕ) → receiver ≢ p → s'.process_queues p ≡ s.process_queues p

-- No queue's messages changed.
abbrev pub SameMessages : Ipc → Ipc → Type 0
SameMessages s s' = (p : ℕ) → (s'.process_queues p).messages ≡ (s.process_queues p).messages

abbrev Sends : ℕ → ℕ → Message → Ipc → IpcResult × Ipc × Processes → Type 0
Sends current receiver m s (r, s', ps') =
    ((r ≡ success) × Lands current receiver m s s') ⊎ ((r ≢ success) × SameMessages s s')

send_refusal-fails :
    (receiver : ℕ) (m : Message) (s : Ipc) {r : IpcResult}
    → send_refusal receiver m s ≡ some r
    → r ≢ success
unfolding send_refusal
send_refusal-fails receiver m s {r} e = ground arith

-- In a valid state `ipc_send` of a message either succeeds, and the message lands: it is the last of
-- the receiver's queue, with the running process as the sender and the next number whatever the
-- caller wrote there, a time stamp of 0 and the rest as the caller wrote it, the queue was open and the
-- length at most 4096; or it fails, and no queue's messages change.
pub ipc_send_lem :
    (current receiver : ℕ) (memory : Bool) (m : Message) (s : Ipc) (ps : Processes)
    → IsValid s
    → (((ipc_send current receiver memory (some m) s ps).0 ≡ success)
        × Lands current receiver m s (ipc_send current receiver memory (some m) s ps).1)
      ⊎ (((ipc_send current receiver memory (some m) s ps).0 ≢ success)
          × SameMessages s (ipc_send current receiver memory (some m) s ps).1)
unfolding ipc_send deliver
ipc_send_lem current receiver memory m s ps v = elim (Bool-cases s.ipc_initialized) [
  | inr off ↦
      let is : (not_supported, s, ps) ≡ ipc_send current receiver memory (some m) s ps =
        ground (arith, off) in
      subst (Sends current receiver m s) is (inr (ground arith, λ p. refl))
  | inl on ↦ elim (Option-cases (send_refusal receiver m s)) [
    | inr (r, refused) ↦
        let is : (r, s, ps) ≡ ipc_send current receiver memory (some m) s ps =
          ground (arith, on, refused) in
        subst (Sends current receiver m s) is
          (inr (send_refusal-fails receiver m s refused, λ p. refl))
    | inl passed ↦
        let in_range : receiver < max_processes = unfold send_refusal in ground (arith, passed) in
        let is_open : s.queue_initialized receiver ≡ true =
          unfold send_refusal in ground (arith, passed) in
        let small : m.length ≤ max_message_size = unfold send_refusal in ground (arith, passed) in
        let q = s.process_queues receiver in
        let stamp = stamped current receiver m s.shared in
        let r = (queue_enqueue memory stamp q (numbered s.shared)).0 in
        let q' = (queue_enqueue memory stamp q (numbered s.shared)).1 in
        let next : Ipc = record s {
          process_queues = update s.process_queues receiver q';
          shared = count_sent r (queue_enqueue memory stamp q (numbered s.shared)).2;
        } in
        let is : (r, next, boosted r receiver ps) ≡ ipc_send current receiver memory (some m) s ps =
          ground (arith, on, passed) in
        subst (Sends current receiver m s) is
          (elim (queue_enqueue-cases memory stamp q (numbered s.shared)
            (v.queues receiver is_open)) [
              | inl (done, grown, fits) ↦ inl (
                done,
                record {
                  on = on;
                  in_range = in_range;
                  is_open = is_open;
                  small = small;
                  grown = ground (arith, grown);
                  others = λ p ne. ground arith;
                },
              )
              | inr (refused, same, fits) ↦ inr (
                refused,
                λ p. elim (Bool-cases (receiver == p)) [
                  | inl here ↦ ground (arith, here, same)
                  | inr there ↦ ground (arith, there)
                ],
              )
            ])
  ]
]
