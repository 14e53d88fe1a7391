-- ===== src/Ipc/Order.antt =====
-- A queue over a run of sends and receipts: what was accepted comes out, in order.
use quantum_os.Prelude.{
  ℕ, suc, ◌≤◌, ◌≡◌, ◌≢◌, refl, Bool, true, false, Option, none, some, List, [], ◌∷◌, ◌++◌, length,
  length-append, leb, ◌==◌, if◌then◌else◌, ◌⊎◌, inl, inr, arith, Bool-cases, Option-cases,
}
use quantum_os.Ipc.Queue.{
  success, Message, Queue, Shared, max_queue_size, pid_any, queue_enqueue, queue_dequeue,
  queue_alloc_entry, take_from, take_filtered,
}

-- The messages of one sender, in their order.
abbrev pub of_sender : ℕ → List Message → List Message
of_sender p [] = []
of_sender p (m ∷ ms) = let rest = of_sender p ms in if m.sender_id == p then m ∷ rest else rest

pub of_sender-append :
    (p : ℕ) (xs ys : List Message) → of_sender p (xs ++ ys) ≡ of_sender p xs ++ of_sender p ys
of_sender-append p [] ys = refl
of_sender-append p (m ∷ xs) ys = ground (arith, of_sender-append p xs ys)

-- What is taken is the first of its sender, and the others of each sender keep their order.
abbrev Taken : ℕ → List Message → Message → List Message → Type 0
Taken p ms m rest = of_sender p ms ≡ of_sender p (m ∷ rest)

take_from-sender :
    (f : ℕ) (ms : List Message) {m : Message} {rest : List Message}
    → take_from f ms ≡ some (m, rest)
    → (m.sender_id ≡ f) × (length ms ≡ suc (length rest))
unfolding take_from
take_from-sender f [] e = absurd (ground arith)
take_from-sender f (x ∷ ms) {m} {rest} e = elim (Bool-cases (x.sender_id == f)) [
  | inl hit ↦ ground (arith, hit)
  | inr miss ↦ elim (Option-cases (take_from f ms)) [
    | inl nothing ↦ absurd (ground (arith, miss, nothing))
    | inr ((y, r), found) ↦ ground (arith, miss, found, take_from-sender f ms found)
  ]
]

take_from-Taken :
    (f p : ℕ) (ms : List Message) {m : Message} {rest : List Message}
    → take_from f ms ≡ some (m, rest)
    → Taken p ms m rest
unfolding take_from
take_from-Taken f p [] e = absurd (ground arith)
take_from-Taken f p (x ∷ ms) {m} {rest} e = elim (Bool-cases (x.sender_id == f)) [
  | inl hit ↦ ground (arith, hit)
  | inr miss ↦ elim (Option-cases (take_from f ms)) [
    | inl nothing ↦ absurd (ground (arith, miss, nothing))
    | inr ((y, r), found) ↦
        ground (arith, miss, found, take_from-Taken f p ms found, take_from-sender f ms found)
  ]
]

pub take_filtered-Taken :
    (f : Option ℕ) (p : ℕ) (ms : List Message) {m : Message} {rest : List Message}
    → take_filtered f ms ≡ some (m, rest)
    → Taken p ms m rest
unfolding take_filtered
take_filtered-Taken none p [] e = absurd (ground arith)
take_filtered-Taken none p (x ∷ ms) e = ground arith
take_filtered-Taken (some f) p [] e = elim (Bool-cases (f == pid_any)) [
  | inl any ↦ absurd (ground (arith, any))
  | inr one ↦ take_from-Taken f p [] (ground (arith, one))
]
take_filtered-Taken (some f) p (x ∷ ms) e = elim (Bool-cases (f == pid_any)) [
  | inl any ↦ ground (arith, any)
  | inr one ↦ take_from-Taken f p (x ∷ ms) (ground (arith, one))
]

pub take_filtered-length :
    (f : Option ℕ) (ms : List Message) {m : Message} {rest : List Message}
    → take_filtered f ms ≡ some (m, rest)
    → length ms ≡ suc (length rest)
unfolding take_filtered
take_filtered-length none [] e = absurd (ground arith)
take_filtered-length none (x ∷ ms) e = ground arith
take_filtered-length (some f) [] {m} {rest} e = elim (Bool-cases (f == pid_any)) [
  | inl any ↦ absurd (ground (arith, any))
  | inr one ↦ (take_from-sender f [] {m = m} {rest = rest} (ground (arith, one))).1
]
take_filtered-length (some f) (x ∷ ms) {m} {rest} e = elim (Bool-cases (f == pid_any)) [
  | inl any ↦ ground (arith, any)
  | inr one ↦ (take_from-sender f (x ∷ ms) {m = m} {rest = rest} (ground (arith, one))).1
]

-- The count is the number of messages, and there are at most 64.
pub record Fits (q : Queue) : Type 0 where
  pub counted : q.count ≡ length q.messages
  pub limit : q.max_size ≡ max_queue_size
  pub bounded : length q.messages ≤ max_queue_size

pub queue_enqueue-cases :
    (memory : Bool) (m : Message) (q : Queue) (w : Shared)
    → Fits q
    → (((queue_enqueue memory m q w).0 ≡ success)
        × ((queue_enqueue memory m q w).1.messages ≡ q.messages ++ m ∷ [])
        × Fits (queue_enqueue memory m q w).1)
      ⊎ (((queue_enqueue memory m q w).0 ≢ success)
          × ((queue_enqueue memory m q w).1.messages ≡ q.messages)
          × Fits (queue_enqueue memory m q w).1)
unfolding queue_enqueue
queue_enqueue-cases memory m q w v = elim (Bool-cases (leb q.max_size q.count)) [
  | inl full ↦ inr (
    ground (arith, full),
    ground (arith, full),
    ground (arith, full, v.counted, v.limit, v.bounded),
  )
  | inr room ↦ elim (Option-cases (queue_alloc_entry memory w)) [
    | inl exhausted ↦ inr (
      ground (arith, room, exhausted),
      ground (arith, room, exhausted),
      ground (arith, room, exhausted, v.counted, v.limit, v.bounded),
    )
    | inr (w', given) ↦ inl (
      ground (arith, room, given),
      ground (arith, room, given),
      ground (arith, room, given, v.counted, v.limit, v.bounded, length-append q.messages (m ∷ [])),
    )
  ]
]

-- What a receipt hands out and leaves.
pub queue_dequeue-cases :
    (f : Option ℕ) (out : Bool) (q : Queue) (w : Shared)
    → Fits q
    → ((m : Message) × (rest : List Message) × (take_filtered f q.messages ≡ some (m, rest))
        × ((queue_dequeue f out q w).0 ≡ success)
        × ((queue_dequeue f out q w).1 ≡ some m)
        × ((queue_dequeue f out q w).2.messages ≡ rest)
        × Fits (queue_dequeue f out q w).2)
      ⊎ (((queue_dequeue f out q w).0 ≢ success)
          × ((queue_dequeue f out q w).1 ≡ none)
          × ((queue_dequeue f out q w).2 ≡ q))
unfolding queue_dequeue
queue_dequeue-cases f false q w v = inr (ground arith, refl, refl)
queue_dequeue-cases f true q w v = elim (Bool-cases (q.count == 0)) [
  | inl empty ↦ inr (ground (arith, empty), ground (arith, empty), ground (arith, empty))
  | inr some_left ↦ elim (Option-cases (take_filtered f q.messages)) [
    | inl nothing ↦ inr (
      ground (arith, some_left, nothing),
      ground (arith, some_left, nothing),
      ground (arith, some_left, nothing),
    )
    | inr ((m, rest), found) ↦
        let fewer = take_filtered-length f q.messages found in
        inl (
          m,
          rest,
          found,
          ground (arith, some_left, found),
          ground (arith, some_left, found),
          ground (arith, some_left, found),
          record {
            counted = ground (arith, some_left, found, fewer, v.counted, v.bounded);
            limit = ground (arith, some_left, found, v.limit);
            bounded = ground (arith, some_left, found, fewer, v.bounded);
          },
        )
  ]
]
