-- ===== src/Ipc/Examples.antt =====
-- Messages and ports at work, and the theorems about them at concrete states.
use quantum_os.Prelude.{
  ◌&&◌, if◌then◌else◌, ℕ, ◌≡◌, ◌≢◌, ◌⊎◌, refl, true, false, none, some, List, [], ◌∷◌, ◌++◌,
  find_first, arith,
}
use quantum_os.Process.{Processes, process_magic, ready, user, zero_process, no_processes}
use quantum_os.Ipc.Queue.{Message, Queue, closed, open_, success, not_found, fresh_queue}
use quantum_os.Ipc.State.{Ipc, ipc_init, ipc_process_init, find_port_by_name, str_equal, copied}
use quantum_os.Ipc.Passing.{ipc_send}
use quantum_os.Ipc.Ports.{ipc_port_create, ipc_port_lookup, ipc_process_cleanup, destroyed}
use quantum_os.Ipc.Valid.{IsValid, fresh-Fits}
use quantum_os.Ipc.Reach.{
  inits, opens, port_creates, sends, perform, perform_all, IsUnused, perform_all-IsValid,
}
use quantum_os.Ipc.Fifo.{Traffic, Use, puts, takes, InOrder, use_all, use_all-InOrder}
use quantum_os.Ipc.Delivery.{Lands, SameMessages, ipc_send_lem}
use quantum_os.Ipc.Names.{port_lookup-create}
use quantum_os.Ipc.Cleanup.{Distinct, may_close, is_due, cleanup_closes}

abbrev zeroed : Queue
zeroed = record { messages = []; count = 0; max_size = 0; dropped = 0; state = closed }

-- The statics before boot.
abbrev boot_image : Ipc
boot_image = record {
  process_queues = λ _. zeroed;
  queue_initialized = λ _. false;
  ports = λ _. record { port_id = 0; owner_id = 0; name = []; state = closed; queue = zeroed };
  next_port_id = 1;
  channels = λ _. record {
    channel_id = 0;
    endpoint_a = 0;
    endpoint_b = 0;
    queue_a_to_b = zeroed;
    queue_b_to_a = zeroed;
    is_active = false;
  };
  next_channel_id = 1;
  shared = record {
    free_entries = 0;
    next_message_id = 1;
    total_sent = 0;
    total_received = 0;
    total_dropped = 0;
  };
  ipc_initialized = false;
}

abbrev boot_image-IsUnused : IsUnused boot_image
boot_image-IsUnused = record { queues = λ p. refl; ports = λ i. refl; channels = λ i. refl }

abbrev programs : Processes
programs = record no_processes {
  table = λ _. record zero_process {
    magic = process_magic;
    state = ready;
    type = user;
    generation = 1;
  };
  slot_generation = λ _. 1;
}

-- Three bytes from process 8.
abbrev ping : Message
ping = record {
  sender_id = 8;
  receiver_id = 0;
  message_type = 0;
  message_id = 0;
  reply_to = 0;
  length = 3;
  timestamp = 0;
  deadline = 0;
  payload = λ i. i;
}

abbrev pong : Message
pong = record ping { length = 4 }

-- Booted, with a queue and a port named "p" of process 7.
live : Ipc
unfolding ipc_init ipc_process_init ipc_port_create find_port_by_name find_first
live = (ipc_port_create 7 (some (112 ∷ [])) true (ipc_process_init 7 (ipc_init boot_image).1).1).2

live-IsValid : IsValid live
unfolding live perform_all perform
live-IsValid =
    perform_all-IsValid
      ((programs, inits)
        ∷ (programs, opens 7)
        ∷ (programs, port_creates 7 (some (112 ∷ [])) true)
        ∷ [])
      boot_image boot_image-IsUnused

perform_all-IsValid_example : IsValid (
    perform_all
      ((programs, inits) ∷ (programs, opens 7) ∷ (programs, sends 8 7 true (some ping)) ∷ [])
      boot_image)
perform_all-IsValid_example =
    perform_all-IsValid
      ((programs, inits) ∷ (programs, opens 7) ∷ (programs, sends 8 7 true (some ping)) ∷ [])
      boot_image boot_image-IsUnused

-- Two messages of process 8 in, one out.
abbrev traffic : List Use
traffic = puts true ping ∷ puts true pong ∷ takes none true ∷ []

abbrev quiet : Traffic
quiet = record {
  queue = fresh_queue open_;
  shared = boot_image.shared;
  accepted = [];
  received = [];
}

use_all-InOrder_example : InOrder (use_all traffic quiet)
use_all-InOrder_example =
    use_all-InOrder traffic quiet (record { fits = fresh-Fits open_; kept = λ p. refl })

ipc_send_lem_example :
    (((ipc_send 8 7 true (some ping) live programs).0 ≡ success)
      × Lands 8 7 ping live (ipc_send 8 7 true (some ping) live programs).1)
    ⊎ (((ipc_send 8 7 true (some ping) live programs).0 ≢ success)
        × SameMessages live (ipc_send 8 7 true (some ping) live programs).1)
ipc_send_lem_example = ipc_send_lem 8 7 true ping live programs live-IsValid

-- A second port, named "q".
with_q : Ipc
unfolding live ipc_port_create find_port_by_name find_first str_equal
with_q = (ipc_port_create 7 (some (113 ∷ [])) true live).2

with_q_made : ipc_port_create 7 (some (113 ∷ [])) true live ≡ (success, some 2, with_q)
unfolding with_q copied
with_q_made = refl

port_q_found : ipc_port_lookup (some (113 ∷ [])) true with_q ≡ (success, some 2)
port_q_found = port_lookup-create 7 (113 ∷ []) live with_q_made

abbrev eight : List ℕ
eight = 97 ∷ 98 ∷ 99 ∷ 100 ∷ 101 ∷ 102 ∷ 103 ∷ 104 ∷ []

-- 64 bytes.
abbrev long_name : List ℕ
long_name = eight ++ eight ++ eight ++ eight ++ eight ++ eight ++ eight ++ eight

with_long : Ipc
unfolding live ipc_port_create find_port_by_name find_first str_equal
with_long = (ipc_port_create 7 (some long_name) true live).2

with_long_made : ipc_port_create 7 (some long_name) true live ≡ (success, some 2, with_long)
unfolding with_long copied
with_long_made = refl

port_lookup-create_example : ipc_port_lookup (some long_name) true with_long ≡ (not_found, none)
port_lookup-create_example = port_lookup-create 7 long_name live with_long_made

live-Distinct : Distinct live.ports
unfolding live copied
live-Distinct i j a b e = ground (arith, a, b)

-- Process 9 cleans up after process 7, and its port stays.
cleanup_closes_example :
    (ipc_process_cleanup 9 7 live).1.ports 0
    ≡ (if may_close 9 7 && is_due 7 (live.ports 0) then destroyed (live.ports 0) else live.ports 0)
unfolding live
cleanup_closes_example = cleanup_closes 9 7 live live-Distinct (omega arith) refl 0 (omega arith)
