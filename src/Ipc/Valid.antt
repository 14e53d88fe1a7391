-- ===== src/Ipc/Valid.antt =====
-- The invariant of the statics of ipc.c, and how a store keeps it.
use quantum_os.Prelude.{
  ℕ, ◌≡◌, refl, sym, subst, Bool, true, false, Option, inl, inr, arith, Bool-cases, ◌==◌, update,
}
use quantum_os.Ipc.Queue.{Message, Queue, Shared, PortState, fresh_queue}
use quantum_os.Ipc.State.{Ipc, Port, Channel, is_closed}
use quantum_os.Ipc.Passing.{deliver, collect, stamped, numbered}
use quantum_os.Ipc.Order.{Fits, queue_enqueue-cases, queue_dequeue-cases}

-- Every queue in use has an exact count and at most 64 messages. A closed port or channel keeps
-- stale counts, and is opened anew with a fresh queue.
pub record IsValid (s : Ipc) : Type 0 where
  pub queues : (p : ℕ) → s.queue_initialized p ≡ true → Fits (s.process_queues p)
  pub ports : (i : ℕ) → is_closed (s.ports i).state ≡ false → Fits (s.ports i).queue
  pub channels :
      (i : ℕ)
      → (s.channels i).is_active ≡ true
      → Fits (s.channels i).queue_a_to_b × Fits (s.channels i).queue_b_to_a

pub fresh-Fits : (state : PortState) → Fits (fresh_queue state)
fresh-Fits state = record { counted = refl; limit = refl; bounded = omega arith }

pub deliver-Fits :
    (sender receiver : ℕ) (memory : Bool) (m : Message) (q : Queue) (w : Shared)
    → Fits q
    → Fits (deliver sender receiver memory m q w).1
unfolding deliver
deliver-Fits sender receiver memory m q w v =
    elim (queue_enqueue-cases memory (stamped sender receiver m w) q (numbered w) v) [
      | inl (done, grown, fits) ↦ fits
      | inr (refused, same, fits) ↦ fits
    ]

pub collect-Fits :
    (f : Option ℕ) (out : Bool) (q : Queue) (w : Shared) → Fits q → Fits (collect f out q w).2
unfolding collect
collect-Fits f out q w v = elim (queue_dequeue-cases f out q w v) [
  | inl (m, rest, found, done, given, left, fits) ↦ fits
  | inr (refused, nothing, same) ↦ subst Fits (sym same) v
]

-- A store at one index keeps a property of all.
pub update_keeps {ℓ κ} :
    {A : Type ℓ} (P : A → Type κ) (t : ℕ → A) (i : ℕ) (a : A)
    → P a
    → ((j : ℕ) → P (t j))
    → (j : ℕ) → P (update t i a j)
update_keeps P t i a new old j = elim (Bool-cases (i == j)) [
  | inl here ↦ rw here new
  | inr there ↦ rw there (old j)
]

module _ (s : Ipc) (v : IsValid s) where
  pub put_queue :
      (r : ℕ) (q : Queue)
      → Fits q
      → (p : ℕ) → s.queue_initialized p ≡ true
      → Fits (update s.process_queues r q p)
  put_queue r q fits p on = elim (Bool-cases (r == p)) [
    | inl here ↦ rw here fits
    | inr there ↦ rw there (v.queues p on)
  ]

  abbrev PortFits : Port → Type 0
  PortFits p = is_closed p.state ≡ false → Fits p.queue

  pub put_port :
      (i : ℕ) (p : Port)
      → (is_closed p.state ≡ false → Fits p.queue)
      → (j : ℕ) → is_closed (update s.ports i p j).state ≡ false
      → Fits (update s.ports i p j).queue
  put_port i p fits = update_keeps PortFits s.ports i p fits v.ports

  abbrev ChannelFits : Channel → Type 0
  ChannelFits c = c.is_active ≡ true → Fits c.queue_a_to_b × Fits c.queue_b_to_a

  pub put_channel :
      (i : ℕ) (c : Channel)
      → (c.is_active ≡ true → Fits c.queue_a_to_b × Fits c.queue_b_to_a)
      → (j : ℕ) → (update s.channels i c j).is_active ≡ true
      → Fits (update s.channels i c j).queue_a_to_b × Fits (update s.channels i c j).queue_b_to_a
  put_channel i c fits = update_keeps ChannelFits s.channels i c fits v.channels
