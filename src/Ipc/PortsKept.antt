-- ===== src/Ipc/PortsKept.antt =====
-- The calls of ipc.c on ports, and the cleanup, keep the invariant.
use quantum_os.Prelude.{
  ℕ, zero, suc, ◌+◌, ◌≡◌, subst, Bool, true, false, not, ◌&&◌, Option, none, some, List, ◌%◌, ◌^◌,
  inl, inr, arith, Bool-cases, Option-cases, leb, ◌==◌, update, find_first-some,
}
use quantum_os.Ipc.Queue.{Message, open_, pid_any}
use quantum_os.Ipc.State.{
  Ipc, Port, max_processes, max_ports, max_channels, is_closed, find_port_by_id, find_port_by_name,
  find_channel, pid_kernel,
}
use quantum_os.Ipc.Passing.{deliver, collect}
use quantum_os.Ipc.Ports.{
  ipc_port_create, ipc_port_destroy, ipc_port_send, ipc_port_receive, ipc_process_cleanup,
  cleanup_port, cleanup_ports, close_queue, opened, destroyed, free_port, is_listening, reclaim,
}
use quantum_os.Ipc.Valid.{IsValid, fresh-Fits, deliver-Fits, collect-Fits, put_port}

pub port_create-IsValid :
    (current : ℕ) (name : Option (List ℕ)) (out : Bool) (s : Ipc)
    → IsValid s
    → IsValid (ipc_port_create current name out s).2
unfolding ipc_port_create
port_create-IsValid current none out s v = elim (Bool-cases s.ipc_initialized) [
  | inl on ↦ subst IsValid (ground (arith, on)) v
  | inr off ↦ subst IsValid (ground (arith, off)) v
]
port_create-IsValid current (some name) out s v = elim (Bool-cases (s.ipc_initialized && out)) [
  | inr refused ↦ subst IsValid (ground (arith, refused)) v
  | inl on ↦ elim (Option-cases (find_port_by_name name s)) [
    | inr (i, known) ↦ subst IsValid (ground (arith, on, known)) v
    | inl new ↦ elim (Option-cases (free_port s)) [
      | inl full ↦ subst IsValid (ground (arith, on, new, full)) v
      | inr (i, free) ↦
          let next : Ipc = record s {
            ports = update s.ports i (opened s.next_port_id current name);
            next_port_id = (s.next_port_id + 1) % 2 ^ 32;
          } in
          let valid : IsValid next = record {
            queues = v.queues;
            ports = put_port s v i (opened s.next_port_id current name) (λ on. fresh-Fits open_);
            channels = v.channels;
          } in
          subst IsValid (ground (arith, on, new, free)) valid
    ]
  ]
]

pub port_destroy-IsValid :
    (current id : ℕ) (s : Ipc) → IsValid s → IsValid (ipc_port_destroy current id s).1
unfolding ipc_port_destroy
port_destroy-IsValid current id s v = elim (Option-cases (find_port_by_id id s)) [
  | inl missing ↦ subst IsValid (ground (arith, missing)) v
  | inr (i, found) ↦
      elim (Bool-cases (not ((s.ports i).owner_id == current) && not (current == pid_kernel))) [
        | inl refused ↦ subst IsValid (ground (arith, found, refused)) v
        | inr allowed ↦
            let next : Ipc = record s {
              ports = update s.ports i (destroyed (s.ports i));
              shared = reclaim (s.ports i).queue.messages s.shared;
            } in
            let valid : IsValid next = record {
              queues = v.queues;
              ports = put_port s v i (destroyed (s.ports i)) (λ on. absurd (ground (arith, on)));
              channels = v.channels;
            } in
            subst IsValid (ground (arith, found, allowed)) valid
      ]
]

-- A port that is found by its number is open.
pub find_port_by_id-open :
    (id : ℕ) (s : Ipc) {i : ℕ}
    → find_port_by_id id s ≡ some i
    → ((s.ports i).port_id ≡ id) × (is_closed (s.ports i).state ≡ false)
unfolding find_port_by_id
find_port_by_id-open id s {i} e = ground (
  arith,
  find_first-some max_ports 0
      (λ (j : ℕ). (s.ports j).port_id == id && not (is_closed (s.ports j).state)) {k = i} e,
)

pub find_channel-active :
    (id : ℕ) (s : Ipc) {i : ℕ}
    → find_channel id s ≡ some i
    → ((s.channels i).channel_id ≡ id) × ((s.channels i).is_active ≡ true)
unfolding find_channel
find_channel-active id s {i} e = ground (
  arith,
  find_first-some max_channels 0
      (λ (j : ℕ). (s.channels j).channel_id == id && (s.channels j).is_active) {k = i} e,
)

pub port_send-IsValid :
    (current id : ℕ) (memory : Bool) (m : Message) (s : Ipc)
    → IsValid s
    → IsValid (ipc_port_send current id memory m s).1
unfolding ipc_port_send
port_send-IsValid current id memory m s v = elim (Option-cases (find_port_by_id id s)) [
  | inl missing ↦ subst IsValid (ground (arith, missing)) v
  | inr (i, found) ↦ elim (Bool-cases (is_listening (s.ports i).state)) [
    | inr deaf ↦ subst IsValid (ground (arith, found, deaf)) v
    | inl hears ↦
        let p = s.ports i in
        let fits =
          deliver-Fits current p.owner_id memory m p.queue s.shared
            (v.ports i (find_port_by_id-open id s found).1) in
        let p' : Port = record p {
          queue = (deliver current p.owner_id memory m p.queue s.shared).1;
        } in
        let next : Ipc = record s {
          ports = update s.ports i p';
          shared = (deliver current p.owner_id memory m p.queue s.shared).2;
        } in
        let valid : IsValid next = record {
          queues = v.queues;
          ports = put_port s v i p' (λ on. fits);
          channels = v.channels;
        } in
        subst IsValid (ground (arith, found, hears)) valid
  ]
]

pub port_receive-IsValid :
    (current id : ℕ) (out : Bool) (s : Ipc)
    → IsValid s
    → IsValid (ipc_port_receive current id out s).2
unfolding ipc_port_receive
port_receive-IsValid current id out s v = elim (Option-cases (find_port_by_id id s)) [
  | inl missing ↦ subst IsValid (ground (arith, missing)) v
  | inr (i, found) ↦ elim (Bool-cases ((s.ports i).owner_id == current)) [
    | inr stranger ↦ subst IsValid (ground (arith, found, stranger)) v
    | inl owner ↦
        let p = s.ports i in
        let fits =
          collect-Fits (some pid_any) out p.queue s.shared
            (v.ports i (find_port_by_id-open id s found).1) in
        let p' : Port = record p { queue = (collect (some pid_any) out p.queue s.shared).2 } in
        let next : Ipc = record s {
          ports = update s.ports i p';
          shared = (collect (some pid_any) out p.queue s.shared).3;
        } in
        let valid : IsValid next = record {
          queues = v.queues;
          ports = put_port s v i p' (λ on. fits);
          channels = v.channels;
        } in
        subst IsValid (ground (arith, found, owner)) valid
  ]
]

close_queue-IsValid : (pid : ℕ) (s : Ipc) → IsValid s → IsValid (close_queue pid s)
unfolding close_queue
close_queue-IsValid pid s v = record {
  queues = λ p on. elim (Bool-cases (pid == p)) [
    | inl here ↦ absurd (ground (arith, on, here))
    | inr there ↦ rw there (v.queues p (ground (arith, on, there)))
  ];
  ports = v.ports;
  channels = v.channels;
}

cleanup_port-IsValid :
    (current pid i : ℕ) (s : Ipc) → IsValid s → IsValid (cleanup_port current pid i s)
unfolding cleanup_port
cleanup_port-IsValid current pid i s v =
    elim (Bool-cases ((s.ports i).owner_id == pid && not (is_closed (s.ports i).state))) [
      | inl due ↦
          subst IsValid (ground (arith, due)) (port_destroy-IsValid current (s.ports i).port_id s v)
      | inr kept ↦ subst IsValid (ground (arith, kept)) v
    ]

cleanup_ports-IsValid :
    (current pid n i : ℕ) (s : Ipc) → IsValid s → IsValid (cleanup_ports current pid n i s)
unfolding cleanup_ports
cleanup_ports-IsValid current pid zero i s v = v
cleanup_ports-IsValid current pid (suc n) i s v =
    cleanup_ports-IsValid current pid n (i + 1) (cleanup_port current pid i s)
      (cleanup_port-IsValid current pid i s v)

pub cleanup-IsValid :
    (current pid : ℕ) (s : Ipc) → IsValid s → IsValid (ipc_process_cleanup current pid s).1
unfolding ipc_process_cleanup
cleanup-IsValid current pid s v =
    elim (Bool-cases (not (leb max_processes pid) && s.queue_initialized pid)) [
      | inr nothing ↦ subst IsValid (ground (arith, nothing)) v
      | inl due ↦ subst IsValid (ground (arith, due)) (
          cleanup_ports-IsValid current pid max_ports 0 (close_queue pid s)
            (close_queue-IsValid pid s v))
    ]
