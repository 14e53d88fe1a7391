-- ===== src/Ipc/Reach.antt =====
-- Every run of the calls of ipc.c, from boot.
use quantum_os.Prelude.{ℕ, ◌≡◌, Bool, true, false, Option, none, some, List, [], ◌∷◌, arith}
use quantum_os.Process.{Processes}
use quantum_os.Ipc.Queue.{Message, IpcResult, success}
use quantum_os.Ipc.State.{Ipc, is_closed, ipc_init, ipc_process_init}
use quantum_os.Ipc.Passing.{ipc_send, ipc_receive, ipc_reply, ipc_call}
use quantum_os.Ipc.Ports.{
  ipc_port_create, ipc_port_destroy, ipc_port_send, ipc_port_receive, ipc_process_cleanup,
}
use quantum_os.Ipc.Channels.{
  ipc_channel_create, ipc_channel_destroy, ipc_channel_send, ipc_channel_receive,
}
use quantum_os.Ipc.Valid.{IsValid}
use quantum_os.Ipc.Kept.{init-IsValid, process_init-IsValid, send-IsValid, receive-IsValid}
use quantum_os.Ipc.PortsKept.{
  port_create-IsValid, port_destroy-IsValid, port_send-IsValid, port_receive-IsValid,
  cleanup-IsValid,
}
use quantum_os.Ipc.ChannelsKept.{
  channel_create-IsValid, channel_destroy-IsValid, channel_send-IsValid, channel_receive-IsValid,
}

-- The calls, with the running process first where it matters.
pub data Call : Type 0 where
  inits : Call
  opens : ℕ → Call
  cleans : ℕ → ℕ → Call
  sends : ℕ → ℕ → Bool → Option Message → Call
  receives : ℕ → Option ℕ → Bool → Call
  replies : ℕ → Bool → Option Message → Option Message → Call
  asks : ℕ → ℕ → Bool → Option Message → Bool → Call
  port_creates : ℕ → Option (List ℕ) → Bool → Call
  port_destroys : ℕ → ℕ → Call
  port_sends : ℕ → ℕ → Bool → Message → Call
  port_receives : ℕ → ℕ → Bool → Call
  channel_creates : ℕ → ℕ → Bool → Call
  channel_destroys : ℕ → Call
  channel_sends : ℕ → ℕ → Bool → Message → Call
  channel_receives : ℕ → ℕ → Bool → Call

-- The statics after a call. The process table is the one at the time of the call.
unfoldable pub perform : Processes → Call → Ipc → Ipc
perform ps inits s = (ipc_init s).1
perform ps (opens pid) s = (ipc_process_init pid s).1
perform ps (cleans current pid) s = (ipc_process_cleanup current pid s).1
perform ps (sends current to memory m) s = (ipc_send current to memory m s ps).1
perform ps (receives current f out) s = (ipc_receive current f out s).2
perform ps (replies current memory m r) s = (ipc_reply current memory m r s ps).1
perform ps (asks current to memory m out) s = (ipc_call current to memory m out s ps).2
perform ps (port_creates current name out) s = (ipc_port_create current name out s).2
perform ps (port_destroys current id) s = (ipc_port_destroy current id s).1
perform ps (port_sends current id memory m) s = (ipc_port_send current id memory m s).1
perform ps (port_receives current id out) s = (ipc_port_receive current id out s).2
perform ps (channel_creates a b out) s = (ipc_channel_create a b out s).2
perform ps (channel_destroys id) s = (ipc_channel_destroy id s).1
perform ps (channel_sends current id memory m) s = (ipc_channel_send current id memory m s).1
perform ps (channel_receives current id out) s = (ipc_channel_receive current id out s).2

unfoldable pub perform_all : List (Processes × Call) → Ipc → Ipc
perform_all [] s = s
perform_all ((ps, c) ∷ cs) s = perform_all cs (perform ps c s)

-- The statics as the kernel image holds them: no queue, port or channel is in use.
pub record IsUnused (s : Ipc) : Type 0 where
  pub queues : (p : ℕ) → s.queue_initialized p ≡ false
  pub ports : (i : ℕ) → is_closed (s.ports i).state ≡ true
  pub channels : (i : ℕ) → (s.channels i).is_active ≡ false

unused-IsValid : (s : Ipc) → IsUnused s → IsValid s
unused-IsValid s u = record {
  queues = λ p on. absurd (ground (arith, on, u.queues p));
  ports = λ i on. absurd (ground (arith, on, u.ports i));
  channels = λ i on. absurd (ground (arith, on, u.channels i));
}

reply-IsValid :
    (current : ℕ) (memory : Bool) (m r : Option Message) (s : Ipc) (ps : Processes)
    → IsValid s
    → IsValid (ipc_reply current memory m r s ps).1
unfolding ipc_reply
reply-IsValid current memory none r s ps v = v
reply-IsValid current memory (some m) none s ps v = v
reply-IsValid current memory (some m) (some r) s ps v = send-IsValid _ _ memory _ s ps v

after_send-IsValid :
    (r : IpcResult) (current to : ℕ) (s : Ipc) (ps : Processes)
    → IsValid s
    → IsValid (
        (elim r as (λ _. IpcResult × Option Message × Ipc × Processes) [
          | success ↦
              let (a, answer, s'') = ipc_receive current (some to) true s in (a, answer, s'', ps)
          | refusal ↦ (refusal, none, s, ps)
        ]).2)
after_send-IsValid success current to s ps v = receive-IsValid current (some to) true s v
after_send-IsValid r current to s ps v = v

call-IsValid :
    (current to : ℕ) (memory : Bool) (m : Option Message) (out : Bool) (s : Ipc) (ps : Processes)
    → IsValid s
    → IsValid (ipc_call current to memory m out s ps).2
unfolding ipc_call
call-IsValid current to memory none out s ps v = v
call-IsValid current to memory (some m) false s ps v = v
call-IsValid current to memory (some m) true s ps v =
    after_send-IsValid (ipc_send current to memory (some m) s ps).0 current to
      (ipc_send current to memory (some m) s ps).1 (ipc_send current to memory (some m) s ps).2
      (send-IsValid current to memory (some m) s ps v)

pub perform-IsValid : (ps : Processes) (c : Call) (s : Ipc) → IsValid s → IsValid (perform ps c s)
unfolding perform
perform-IsValid ps inits s v = init-IsValid s v
perform-IsValid ps (opens pid) s v = process_init-IsValid pid s v
perform-IsValid ps (cleans current pid) s v = cleanup-IsValid current pid s v
perform-IsValid ps (sends current to memory m) s v = send-IsValid current to memory m s ps v
perform-IsValid ps (receives current f out) s v = receive-IsValid current f out s v
perform-IsValid ps (replies current memory m r) s v = reply-IsValid current memory m r s ps v
perform-IsValid ps (asks current to memory m out) s v = call-IsValid current to memory m out s ps v
perform-IsValid ps (port_creates current name out) s v = port_create-IsValid current name out s v
perform-IsValid ps (port_destroys current id) s v = port_destroy-IsValid current id s v
perform-IsValid ps (port_sends current id memory m) s v = port_send-IsValid current id memory m s v
perform-IsValid ps (port_receives current id out) s v = port_receive-IsValid current id out s v
perform-IsValid ps (channel_creates a b out) s v = channel_create-IsValid a b out s v
perform-IsValid ps (channel_destroys id) s v = channel_destroy-IsValid id s v
perform-IsValid ps (channel_sends current id memory m) s v =
    channel_send-IsValid current id memory m s v
perform-IsValid ps (channel_receives current id out) s v =
    channel_receive-IsValid current id out s v

perform_all-kept : (cs : List (Processes × Call)) (s : Ipc) → IsValid s → IsValid (perform_all cs s)
unfolding perform_all
perform_all-kept [] s v = v
perform_all-kept ((ps, c) ∷ cs) s v =
    perform_all-kept cs (perform ps c s) (perform-IsValid ps c s v)

-- After any run of the calls from the kernel image, whoever makes them, whatever memory there is and
-- whatever they return: every process queue, open port and active channel has an exact count of its
-- messages and holds at most 64.
pub perform_all-IsValid :
    (cs : List (Processes × Call)) (s : Ipc) → IsUnused s → IsValid (perform_all cs s)
perform_all-IsValid cs s u = perform_all-kept cs s (unused-IsValid s u)
