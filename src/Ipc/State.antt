-- ===== src/Ipc/State.antt =====
-- ipc.c: the statics, the lookups and the initialization. A name is the list of its bytes before
-- the terminating zero.
use quantum_os.Prelude.{
  ℕ, zero, suc, ◌-◌, Bool, true, false, not, ◌&&◌, Option, List, [], ◌∷◌, leb, ◌==◌, if◌then◌else◌,
  update, find_first,
}
use quantum_os.Ipc.Queue.{
  IpcResult, success, invalid_arg, PortState, closed, open_, Queue, Shared, fresh_queue,
}

-- MAX_PROCESSES, MAX_PORTS and MAX_CHANNELS of ipc.c, IPC_PID_KERNEL, IPC_MAX_MESSAGE_SIZE and the
-- size of a port's name
abbrev pub max_processes : ℕ
max_processes = 256

abbrev pub max_ports : ℕ
max_ports = 128

abbrev pub max_channels : ℕ
max_channels = 64

abbrev pub pid_kernel : ℕ
pid_kernel = 0

abbrev pub max_message_size : ℕ
max_message_size = 4096

abbrev pub name_size : ℕ
name_size = 64

-- `ipc_port_t`
pub record Port : Type 0 where
  pub port_id : ℕ
  pub owner_id : ℕ
  pub name : List ℕ
  pub state : PortState
  pub queue : Queue

-- `ipc_channel_t`
pub record Channel : Type 0 where
  pub channel_id : ℕ
  pub endpoint_a : ℕ
  pub endpoint_b : ℕ
  pub queue_a_to_b : Queue
  pub queue_b_to_a : Queue
  pub is_active : Bool

-- The statics of ipc.c. The arrays are functions of the index.
pub record Ipc : Type 0 where
  pub process_queues : ℕ → Queue
  pub queue_initialized : ℕ → Bool
  pub ports : ℕ → Port
  pub next_port_id : ℕ
  pub channels : ℕ → Channel
  pub next_channel_id : ℕ
  pub shared : Shared
  pub ipc_initialized : Bool

abbrev pub is_closed : PortState → Bool
is_closed closed = true
is_closed s = false

unfoldable pub str_equal : List ℕ → List ℕ → Bool
str_equal [] [] = true
str_equal (a ∷ as') [] = false
str_equal [] (b ∷ bs) = false
str_equal (a ∷ as') (b ∷ bs) = let rest = str_equal as' bs in if a == b then rest else false

-- The first `n` bytes.
unfoldable pub copied : ℕ → List ℕ → List ℕ
copied zero s = []
copied (suc n) [] = []
copied (suc n) (c ∷ s) = c ∷ copied n s

abbrev pub str_copy : ℕ → List ℕ → List ℕ
str_copy max s = copied (max - 1) s

-- The index in place of the pointer.
unfoldable pub find_port_by_id : ℕ → Ipc → Option ℕ
find_port_by_id id s =
    find_first max_ports 0 (λ i. (s.ports i).port_id == id && not (is_closed (s.ports i).state))

unfoldable pub find_port_by_name : List ℕ → Ipc → Option ℕ
find_port_by_name name s =
    find_first max_ports 0
      (λ i. not (is_closed (s.ports i).state) && str_equal (s.ports i).name name)

unfoldable pub find_channel : ℕ → Ipc → Option ℕ
find_channel id s =
    find_first max_channels 0 (λ i. (s.channels i).channel_id == id && (s.channels i).is_active)

unfoldable pub ipc_process_init : ℕ → Ipc → IpcResult × Ipc
ipc_process_init pid s =
    if leb max_processes pid
    then (invalid_arg, s)
    else (if s.queue_initialized pid then (success, s) else (
      success,
      record s {
        process_queues = update s.process_queues pid (fresh_queue open_);
        queue_initialized = update s.queue_initialized pid true;
      },
    ))

-- The state that `ipc_init` writes before it opens the kernel's queue. What the arrays hold in the
-- fields that it does not write stays.
abbrev pub blank : Ipc → Ipc
blank s =
    let w = s.shared in
    record s {
      process_queues = λ _. fresh_queue closed;
      queue_initialized = λ _. false;
      ports = λ i.
          let p = s.ports i in record p { port_id = 0; owner_id = 0; name = []; state = closed };
      channels = λ i. let c = s.channels i in record c { channel_id = 0; is_active = false };
      shared = record w { total_sent = 0; total_received = 0; total_dropped = 0 };
    }

unfoldable pub ipc_init : Ipc → IpcResult × Ipc
ipc_init s = if s.ipc_initialized then (success, s) else (
  success,
  (let s' = (ipc_process_init pid_kernel (blank s)).1 in record s' { ipc_initialized = true }),
)
