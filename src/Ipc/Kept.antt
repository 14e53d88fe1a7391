-- ===== src/Ipc/Kept.antt =====
-- The initializations of ipc.c and its calls on the process queues keep the invariant.
use quantum_os.Prelude.{
  ℕ, ◌≡◌, subst, Bool, true, not, ◌&&◌, ◌||◌, Option, none, some, inl, inr, arith, Bool-cases,
  Option-cases, leb, ◌==◌, update,
}
use quantum_os.Process.{Processes}
use quantum_os.Ipc.Queue.{Message, open_, fresh_queue}
use quantum_os.Ipc.State.{Ipc, max_processes, ipc_process_init, ipc_init, blank, pid_kernel}
use quantum_os.Ipc.Passing.{ipc_send, ipc_receive, send_refusal, deliver, collect}
use quantum_os.Ipc.Valid.{IsValid, fresh-Fits, deliver-Fits, collect-Fits, put_queue}

-- What holds of a new state holds of the state that a call computes to.
opened_queue : (pid : ℕ) (s : Ipc) → Ipc
opened_queue pid s = record s {
  process_queues = update s.process_queues pid (fresh_queue open_);
  queue_initialized = update s.queue_initialized pid true;
}

opened_queue-IsValid : (pid : ℕ) (s : Ipc) → IsValid s → IsValid (opened_queue pid s)
unfolding opened_queue
opened_queue-IsValid pid s v = record {
  queues = λ p on. elim (Bool-cases (pid == p)) [
    | inl here ↦ rw here (fresh-Fits open_)
    | inr there ↦ rw there (v.queues p (ground (arith, on, there)))
  ];
  ports = v.ports;
  channels = v.channels;
}

pub process_init-IsValid : (pid : ℕ) (s : Ipc) → IsValid s → IsValid (ipc_process_init pid s).1
unfolding ipc_process_init opened_queue
process_init-IsValid pid s v = elim (Bool-cases (leb max_processes pid)) [
  | inl out ↦ subst IsValid (ground (arith, out)) v
  | inr inside ↦ elim (Bool-cases (s.queue_initialized pid)) [
    | inl on ↦ subst IsValid (ground (arith, inside, on)) v
    | inr off ↦ subst IsValid (ground (arith, inside, off)) (opened_queue-IsValid pid s v)
  ]
]

blank-IsValid : (s : Ipc) → IsValid (blank s)
blank-IsValid s = record {
  queues = λ p on. absurd (ground (arith, on));
  ports = λ i on. absurd (ground (arith, on));
  channels = λ i on. absurd (ground (arith, on));
}

started-IsValid : (s : Ipc) → IsValid s → IsValid (record s { ipc_initialized = true })
started-IsValid s v = record { queues = v.queues; ports = v.ports; channels = v.channels }

pub init-IsValid : (s : Ipc) → IsValid s → IsValid (ipc_init s).1
unfolding ipc_init
init-IsValid s v = elim (Bool-cases s.ipc_initialized) [
  | inl on ↦ subst IsValid (ground (arith, on)) v
  | inr off ↦ subst IsValid (ground (arith, off)) (
      started-IsValid (ipc_process_init pid_kernel (blank s)).1
        (process_init-IsValid pid_kernel (blank s) (blank-IsValid s)))
]

pub send-IsValid :
    (current receiver : ℕ) (memory : Bool) (m : Option Message) (s : Ipc) (ps : Processes)
    → IsValid s
    → IsValid (ipc_send current receiver memory m s ps).1
unfolding ipc_send send_refusal
send-IsValid current receiver memory none s ps v = elim (Bool-cases s.ipc_initialized) [
  | inl on ↦ subst IsValid (ground (arith, on)) v
  | inr off ↦ subst IsValid (ground (arith, off)) v
]
send-IsValid current receiver memory (some m) s ps v = elim (Bool-cases s.ipc_initialized) [
  | inr off ↦ subst IsValid (ground (arith, off)) v
  | inl on ↦ elim (Option-cases (send_refusal receiver m s)) [
    | inr (r, refused) ↦ subst IsValid (ground (arith, on, refused)) v
    | inl passed ↦
        let opened : s.queue_initialized receiver ≡ true = ground (arith, passed) in
        let next : Ipc = record s {
          process_queues =
              update s.process_queues receiver
                (deliver current receiver memory m (s.process_queues receiver) s.shared).1;
          shared = (deliver current receiver memory m (s.process_queues receiver) s.shared).2;
        } in
        let valid : IsValid next = record {
          queues =
              put_queue s v receiver
                (deliver current receiver memory m (s.process_queues receiver) s.shared).1
                (deliver-Fits current receiver memory m (s.process_queues receiver) s.shared
                  (v.queues receiver opened));
          ports = v.ports;
          channels = v.channels;
        } in
        subst IsValid (ground (arith, on, passed)) valid
  ]
]

pub receive-IsValid :
    (current : ℕ) (f : Option ℕ) (out : Bool) (s : Ipc)
    → IsValid s
    → IsValid (ipc_receive current f out s).2
unfolding ipc_receive
receive-IsValid current f out s v =
    elim (Bool-cases (
      s.ipc_initialized
      && (out && not (leb max_processes current || not (s.queue_initialized current))))) [
        | inr refused ↦ subst IsValid (ground (arith, refused)) v
        | inl passed ↦
            let q = s.process_queues current in
            let opened : s.queue_initialized current ≡ true = ground (arith, passed) in
            let next : Ipc = record s {
              process_queues = update s.process_queues current (collect f true q s.shared).2;
              shared = (collect f true q s.shared).3;
            } in
            let valid : IsValid next = record {
              queues =
                  put_queue s v current (collect f true q s.shared).2
                    (collect-Fits f true q s.shared (v.queues current opened));
              ports = v.ports;
              channels = v.channels;
            } in
            subst IsValid (ground (arith, passed)) valid
      ]
