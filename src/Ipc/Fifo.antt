-- ===== src/Ipc/Fifo.antt =====
-- A queue over a run of sends and receipts: what is accepted comes out, in order.
use quantum_os.Prelude.{
  ℕ, ◌≡◌, ◌≢◌, refl, sym, ◌∙◌, ap, Bool, Option, none, some, List, [], ◌∷◌, ◌++◌, inl, inr, subst,
}
use mathlib.Core.List.{append_assoc}
use quantum_os.Ipc.Queue.{IpcResult, success, Message, Queue, Shared, queue_enqueue, queue_dequeue}
use quantum_os.Ipc.Order.{
  of_sender, of_sender-append, take_filtered-Taken, Fits, queue_enqueue-cases, queue_dequeue-cases,
}

-- One use of a queue: a message put in, where `kmalloc` would give memory or not, or a receipt with
-- a filter.
pub data Use : Type 0 where
  puts : Bool → Message → Use
  takes : Option ℕ → Bool → Use

-- The queue, what it has accepted so far and what it has handed out, both oldest first.
pub record Traffic : Type 0 where
  pub queue : Queue
  pub shared : Shared
  pub accepted : List Message
  pub received : List Message

abbrev on_success : IpcResult → Message → List Message → List Message
on_success success m ms = ms ++ m ∷ []
on_success refusal m ms = ms

abbrev on_some : Option Message → List Message → List Message
on_some none ms = ms
on_some (some m) ms = ms ++ m ∷ []

unfoldable pub use_queue : Use → Traffic → Traffic
use_queue (puts memory m) t =
    let (r, q, w) = queue_enqueue memory m t.queue t.shared in
    record t { queue = q; shared = w; accepted = on_success r m t.accepted }
use_queue (takes f out) t =
    let (r, m, q, w) = queue_dequeue f out t.queue t.shared in
    record t { queue = q; shared = w; received = on_some m t.received }

unfoldable pub use_all : List Use → Traffic → Traffic
use_all [] t = t
use_all (u ∷ us) t = use_all us (use_queue u t)

-- For each sender: what was accepted is what was received and then what waits, in that order.
pub record InOrder (t : Traffic) : Type 0 where
  pub fits : Fits t.queue
  pub kept :
      (p : ℕ) → of_sender p t.accepted ≡ of_sender p t.received ++ of_sender p t.queue.messages

refused_keeps :
    (r : IpcResult) (m : Message) (ms : List Message) → r ≢ success → on_success r m ms ≡ ms
refused_keeps success m ms ne = absurd (ne refl)
refused_keeps r m ms ne = refl

use_queue-InOrder : (u : Use) (t : Traffic) → InOrder t → InOrder (use_queue u t)
unfolding use_queue
use_queue-InOrder (puts memory m) t v =
    elim (queue_enqueue-cases memory m t.queue t.shared v.fits) [
      | inl (done, grown, fits) ↦ record {
        fits = fits;
        kept = λ p.
            rw (done, grown)
              (of_sender-append p t.accepted (m ∷ [])
                ∙ ap (λ xs. xs ++ of_sender p (m ∷ [])) (v.kept p)
                ∙ append_assoc (of_sender p t.received) (of_sender p t.queue.messages)
                    (of_sender p (m ∷ []))
                ∙ ap (λ xs. of_sender p t.received ++ xs)
                    (sym (of_sender-append p t.queue.messages (m ∷ []))));
      }
      | inr (refused, same, fits) ↦ record {
        fits = fits;
        kept = λ p.
            ap (of_sender p)
              (refused_keeps (queue_enqueue memory m t.queue t.shared).0 m t.accepted refused)
            ∙ rw same (v.kept p);
      }
    ]
use_queue-InOrder (takes f out) t v = elim (queue_dequeue-cases f out t.queue t.shared v.fits) [
  | inl (m, rest, found, done, given, left, fits) ↦ record {
    fits = fits;
    kept = λ p.
        rw (given, left)
          (v.kept p
            ∙ ap (λ xs. of_sender p t.received ++ xs)
                (take_filtered-Taken f p t.queue.messages found ∙ of_sender-append p (m ∷ []) rest)
            ∙ sym (append_assoc (of_sender p t.received) (of_sender p (m ∷ [])) (of_sender p rest))
            ∙ ap (λ xs. xs ++ of_sender p rest) (sym (of_sender-append p t.received (m ∷ []))));
  }
  | inr (refused, nothing, same) ↦ record {
    fits = subst Fits (sym same) v.fits;
    kept = λ p. rw (nothing, same) (v.kept p);
  }
]

-- Over any run of sends and receipts on a queue, with whatever filters and refusals: for each sender,
-- the messages accepted are those received followed by those that wait, in the order of sending. So
-- none is lost, made up, given twice or overtaken by a later one of the same sender, and the count
-- of the queue is exact and at most 64.
pub use_all-InOrder : (us : List Use) (t : Traffic) → InOrder t → InOrder (use_all us t)
unfolding use_all
use_all-InOrder [] t v = v
use_all-InOrder (u ∷ us) t v = use_all-InOrder us (use_queue u t) (use_queue-InOrder u t v)
