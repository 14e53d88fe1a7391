-- ===== src/Ipc/ChannelsKept.antt =====
-- The channel calls keep the invariant of ipc.c.
use quantum_os.Prelude.{
  ℕ, ◌+◌, ◌%◌, ◌^◌, ◌≡◌, subst, Bool, true, not, ◌&&◌, ◌||◌, some, inl, inr, arith, Bool-cases,
  Option-cases, leb, ◌==◌, update,
}
use quantum_os.Ipc.Queue.{Message, open_, pid_any}
use quantum_os.Ipc.State.{Ipc, Channel, max_processes, find_channel}
use quantum_os.Ipc.Passing.{deliver, collect}
use quantum_os.Ipc.Ports.{reclaim}
use quantum_os.Ipc.Channels.{
  ipc_channel_create, ipc_channel_destroy, ipc_channel_send, ipc_channel_receive, channel_deliver,
  channel_collect, connected, disconnected, free_channel,
}
use quantum_os.Ipc.Valid.{IsValid, fresh-Fits, deliver-Fits, collect-Fits, put_channel}
use quantum_os.Ipc.PortsKept.{find_channel-active}

pub channel_create-IsValid :
    (a b : ℕ) (out : Bool) (s : Ipc) → IsValid s → IsValid (ipc_channel_create a b out s).2
unfolding ipc_channel_create
channel_create-IsValid a b out s v =
    elim (Bool-cases
      (s.ipc_initialized && (out && not (leb max_processes a || leb max_processes b)))) [
        | inr refused ↦ subst IsValid (ground (arith, refused)) v
        | inl passed ↦ elim (Option-cases (free_channel s)) [
          | inl full ↦ subst IsValid (ground (arith, passed, full)) v
          | inr (i, free) ↦
              let next : Ipc = record s {
                channels = update s.channels i (connected s.next_channel_id a b);
                next_channel_id = (s.next_channel_id + 1) % 2 ^ 32;
              } in
              let valid : IsValid next = record {
                queues = v.queues;
                ports = v.ports;
                channels =
                    put_channel s v i (connected s.next_channel_id a b)
                      (λ on. (fresh-Fits open_, fresh-Fits open_));
              } in
              subst IsValid (ground (arith, passed, free)) valid
        ]
      ]

pub channel_destroy-IsValid : (id : ℕ) (s : Ipc) → IsValid s → IsValid (ipc_channel_destroy id s).1
unfolding ipc_channel_destroy
channel_destroy-IsValid id s v = elim (Option-cases (find_channel id s)) [
  | inl missing ↦ subst IsValid (ground (arith, missing)) v
  | inr (i, found) ↦
      let c = s.channels i in
      let next : Ipc = record s {
        channels = update s.channels i (disconnected c);
        shared = reclaim c.queue_b_to_a.messages (reclaim c.queue_a_to_b.messages s.shared);
      } in
      let valid : IsValid next = record {
        queues = v.queues;
        ports = v.ports;
        channels = put_channel s v i (disconnected c) (λ on. absurd (ground (arith, on)));
      } in
      subst IsValid (ground (arith, found)) valid
]

module _ (s : Ipc) (v : IsValid s) (i : ℕ) (active : (s.channels i).is_active ≡ true) where
  channel_deliver-IsValid :
      (current : ℕ) (memory : Bool) (m : Message) → IsValid (channel_deliver current memory m i s).1
  unfolding channel_deliver
  channel_deliver-IsValid current memory m =
      let c = s.channels i in
      let fits = v.channels i active in
      elim (Bool-cases (current == c.endpoint_a)) [
        | inl first ↦
            let q = (deliver current c.endpoint_b memory m c.queue_a_to_b s.shared).1 in
            let c' : Channel = record c { queue_a_to_b = q } in
            let next : Ipc = record s {
              channels = update s.channels i c';
              shared = (deliver current c.endpoint_b memory m c.queue_a_to_b s.shared).2;
            } in
            let new = deliver-Fits current c.endpoint_b memory m c.queue_a_to_b s.shared fits.0 in
            let valid : IsValid next = record {
              queues = v.queues;
              ports = v.ports;
              channels = put_channel s v i c' (λ on. (new, fits.1));
            } in
            subst IsValid (ground (arith, first)) valid
        | inr other ↦ elim (Bool-cases (current == c.endpoint_b)) [
          | inr stranger ↦ subst IsValid (ground (arith, other, stranger)) v
          | inl second ↦
              let q = (deliver current c.endpoint_a memory m c.queue_b_to_a s.shared).1 in
              let c' : Channel = record c { queue_b_to_a = q } in
              let next : Ipc = record s {
                channels = update s.channels i c';
                shared = (deliver current c.endpoint_a memory m c.queue_b_to_a s.shared).2;
              } in
              let new = deliver-Fits current c.endpoint_a memory m c.queue_b_to_a s.shared fits.1 in
              let valid : IsValid next = record {
                queues = v.queues;
                ports = v.ports;
                channels = put_channel s v i c' (λ on. (fits.0, new));
              } in
              subst IsValid (ground (arith, other, second)) valid
        ]
      ]

  channel_collect-IsValid : (current : ℕ) (out : Bool) → IsValid (channel_collect current out i s).2
  unfolding channel_collect
  channel_collect-IsValid current out =
      let c = s.channels i in
      let fits = v.channels i active in
      elim (Bool-cases (current == c.endpoint_a)) [
        | inl first ↦
            let q = (collect (some pid_any) out c.queue_b_to_a s.shared).2 in
            let c' : Channel = record c { queue_b_to_a = q } in
            let next : Ipc = record s {
              channels = update s.channels i c';
              shared = (collect (some pid_any) out c.queue_b_to_a s.shared).3;
            } in
            let new = collect-Fits (some pid_any) out c.queue_b_to_a s.shared fits.1 in
            let valid : IsValid next = record {
              queues = v.queues;
              ports = v.ports;
              channels = put_channel s v i c' (λ on. (fits.0, new));
            } in
            subst IsValid (ground (arith, first)) valid
        | inr other ↦ elim (Bool-cases (current == c.endpoint_b)) [
          | inr stranger ↦ subst IsValid (ground (arith, other, stranger)) v
          | inl second ↦
              let q = (collect (some pid_any) out c.queue_a_to_b s.shared).2 in
              let c' : Channel = record c { queue_a_to_b = q } in
              let next : Ipc = record s {
                channels = update s.channels i c';
                shared = (collect (some pid_any) out c.queue_a_to_b s.shared).3;
              } in
              let new = collect-Fits (some pid_any) out c.queue_a_to_b s.shared fits.0 in
              let valid : IsValid next = record {
                queues = v.queues;
                ports = v.ports;
                channels = put_channel s v i c' (λ on. (new, fits.1));
              } in
              subst IsValid (ground (arith, other, second)) valid
        ]
      ]

pub channel_send-IsValid :
    (current id : ℕ) (memory : Bool) (m : Message) (s : Ipc)
    → IsValid s
    → IsValid (ipc_channel_send current id memory m s).1
unfolding ipc_channel_send
channel_send-IsValid current id memory m s v = elim (Option-cases (find_channel id s)) [
  | inl missing ↦ subst IsValid (ground (arith, missing)) v
  | inr (i, found) ↦
      subst IsValid (ground (arith, found))
        (channel_deliver-IsValid s v i (find_channel-active id s found).1 current memory m)
]

pub channel_receive-IsValid :
    (current id : ℕ) (out : Bool) (s : Ipc)
    → IsValid s
    → IsValid (ipc_channel_receive current id out s).2
unfolding ipc_channel_receive
channel_receive-IsValid current id out s v = elim (Option-cases (find_channel id s)) [
  | inl missing ↦ subst IsValid (ground (arith, missing)) v
  | inr (i, found) ↦
      subst IsValid (ground (arith, found))
        (channel_collect-IsValid s v i (find_channel-active id s found).1 current out)
]
