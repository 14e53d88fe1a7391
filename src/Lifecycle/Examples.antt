-- ===== src/Lifecycle/Examples.antt =====
-- Tests and witnesses of creation and destruction: process 7 is dead, and its pid is used again.
use quantum_os.Prelude.{
  ℕ, ◌<◌, true, false, some, [], ◌∷◌, ◌==◌, if◌then◌else◌, ◌≡◌, refl, inl, inr, arith, Bool-cases,
  find_first,
}
use quantum_os.Audit.Examples.{empty_ledger}
use quantum_os.Capability.State.{System}
use quantum_os.Capability.Create.{cap_init}
use quantum_os.Capability.Invariant.{IsValid}
use quantum_os.Capability.Revoke.{is_owned_by, is_ipc_to}
use quantum_os.Capability.History.Kept.{image, init-IsValid}
use quantum_os.Ipc.Queue.{Queue, closed, open_}
use quantum_os.Ipc.State.{Ipc}
use quantum_os.Ipc.Cleanup.{Distinct, is_due}
use quantum_os.Manifest.Table.{empty_manifest}
use quantum_os.Net.{Net, TcpConn}
use quantum_os.Process.{
  is_unused, Process, Processes, ProcessState, zero_process, no_processes, process_magic,
  process_is_valid,
}
use quantum_os.Process.ProcessType.{user}
use quantum_os.Process.ProcessState.{running, ready, terminated}
use quantum_os.Process.ProcessStatus.{success}
use quantum_os.Qpu.Jobs.{slot_free}
use quantum_os.Scheduler.{scheduler_at_boot}
use quantum_os.Lifecycle.{World}
use quantum_os.Lifecycle.Destroy.{process_destroy, process_reap, is_reapable}
use quantum_os.Lifecycle.Create.{
  Params, process_create, find_free_pid, validate_process_params, stack_memory,
}
use quantum_os.Lifecycle.Bystanders.{Bystanders}
use quantum_os.Lifecycle.Gone.{Gone, destroy-Gone}
use quantum_os.Lifecycle.Reaped.{CanReap, state_at, process_reap_lem}
use quantum_os.Lifecycle.Born.{Afresh, Born, CanCreate, create-Born, reborn}

abbrev somebody : Process
somebody = record zero_process { magic = process_magic; state = ready; type = user }

-- Process 0 runs, 7 is dead, and every other slot is taken.
abbrev slots : ℕ → Process
slots k =
    let p = somebody in
    if k == 0
    then record p { state = running }
    else (if k == 7
        then record p {
          state = terminated;
          parent_pid = 0;
          virtual_address_space = 0x9000;
          owns_kernel_stack = true;
          stack_bottom = 0x7000;
          fds = λ _. record {
            data_address = 4096;
            size = 1;
            offset = 0;
            used = true;
            writable = true;
            ram_idx = some 2;
          };
        }
        else p)

abbrev crowd : Processes
crowd = record no_processes { table = slots; initialized = true; current = some 0 }

abbrev zero_queue : Queue
zero_queue = record { messages = []; count = 0; max_size = 0; dropped = 0; state = closed }

abbrev hushed : Ipc
hushed = record {
  process_queues = λ _. zero_queue;
  queue_initialized = λ p. p == 7;
  ports = λ i. record {
    port_id = i;
    owner_id = 7;
    name = [];
    state = if i == 3 then open_ else closed;
    queue = zero_queue;
  };
  next_port_id = 1;
  channels = λ _. record {
    channel_id = 0;
    endpoint_a = 0;
    endpoint_b = 0;
    queue_a_to_b = zero_queue;
    queue_b_to_a = zero_queue;
    is_active = false;
  };
  next_channel_id = 1;
  shared = record {
    free_entries = 8;
    next_message_id = 1;
    total_sent = 0;
    total_received = 0;
    total_dropped = 0;
  };
  ipc_initialized = true;
}

-- Process 7 has a socket and a connection.
abbrev wires : Net
wires =
    let conn : TcpConn = record {
      state = 2;
      owner_pid = 7;
      connect_req = false;
      listen_req = false;
      abort_req = false;
    } in
    record { udp_socks = λ _. record { state = 1; owner_pid = 7 }; tcb = conn; tcb_srv = λ _. conn }

caps_up : System
unfolding cap_init
caps_up = (cap_init (image empty_ledger)).1

caps_up-IsValid : IsValid caps_up
unfolding caps_up
caps_up-IsValid = init-IsValid empty_ledger

abbrev full_house : World
full_house = record {
  processes = crowd;
  scheduler = scheduler_at_boot;
  caps = caps_up;
  intents = λ _. record empty_manifest { bound = true };
  ipc = hushed;
  broker = record { jobs = λ _. slot_free; next_job_id = 1 };
  net = wires;
  freed = [];
}

seven_valid : process_is_valid 7 crowd ≡ true
unfolding process_is_valid
seven_valid = refl

destroy-Gone_example :
    (w' : World) × (process_destroy 5 7 full_house ≡ some (success, w'))
    × Gone 7 full_house w'
    × Bystanders 7 crowd w'.processes
destroy-Gone_example =
    destroy-Gone 5 7 full_house (omega arith) caps_up-IsValid refl seven_valid refl

hushed-Distinct : Distinct hushed.ports
hushed-Distinct i j a b e = e

-- Port 3 of the dead process is closed, and its stack and its address space are given back.
seven_leaves :
    (w' : World) × (process_destroy 5 7 full_house ≡ some (success, w'))
    × (is_due 7 (w'.ipc.ports 3) ≡ false)
    × (w'.freed ≡ 0x7000 ∷ 0x9000 ∷ [])
seven_leaves =
    let (w', done, gone, others) =
      destroy-Gone 5 7 full_house (omega arith) caps_up-IsValid refl seven_valid refl in
    (w', done, gone.ports hushed-Distinct refl refl 3 (omega arith), gone.given)

crowd-CanReap : CanReap full_house
unfolding process_is_valid is_reapable
crowd-CanReap = record {
  caps = caps_up-IsValid;
  on = refl;
  sane = λ k small due. elim (Bool-cases (k == 7)) [
    | inl dead ↦ ground (arith, dead, small)
    | inr other ↦ absurd (ground (arith, other, due, Bool-cases (k == 0)))
  ];
}

process_reap_lem_example :
    (w' : World) × (process_reap 5 full_house ≡ some w')
    × IsValid w'.caps
    × (w'.processes.current ≡ some 0)
    × ((k : ℕ)
        → k < 256
        → state_at w' k
          ≡ (if is_reapable k crowd then ProcessState.unused else state_at full_house k))
process_reap_lem_example = process_reap_lem 5 full_house crowd-CanReap

-- A user process with an entry point, not quantum aware.
abbrev newcomer : Params
newcomer = record {
  name = some (110 ∷ []);
  type = user;
  priority = 2;
  parent_pid = 0;
  entry_point = 0x400000;
  stack_address = 0x800000;
  stack_size = 8192;
  is_quantum_aware = false;
}

caps_up-on : caps_up.initialized ≡ true
unfolding caps_up
caps_up-on = refl

newcomer_passes : (ps : Processes) → validate_process_params (some newcomer) ps ≡ success
unfolding validate_process_params
newcomer_passes ps = refl

newcomer_fits : (stack_memory (λ n. 0) 7 newcomer == 0) ≡ false
unfolding stack_memory
newcomer_fits = refl

taken_below : (k : ℕ) → k < 7 → is_unused (slots k).state ≡ false
taken_below k h = ground (arith, h, Bool-cases (k == 0), Bool-cases (k == 7))

reborn_example :
    (gone : World) × (w' : World) × (process_destroy 5 7 full_house ≡ some (success, gone))
    × (process_create (λ n. 0) 9 true (some newcomer) gone ≡ (success, some 7, w'))
    × Afresh 7 newcomer true full_house gone w'
reborn_example =
    reborn (λ n. 0) 5 9 true 7 newcomer full_house (omega arith) caps_up-IsValid caps_up-on refl
      refl seven_valid refl taken_below newcomer_passes newcomer_fits

-- The world before anything but process 0 was made.
abbrev early : World
early = record full_house {
  processes = record crowd { table = λ k. if k == 0 then slots 0 else zero_process };
}

early-CanCreate : CanCreate (λ n. 0) 1 newcomer early.processes
unfolding stack_memory validate_process_params find_free_pid find_first
early-CanCreate = record { on = refl; calm = refl; passes = refl; free = refl; memory = refl }

caps_up-unowned : (j : ℕ) → is_owned_by 1 (caps_up.table j) ≡ false
unfolding caps_up is_owned_by
caps_up-unowned j = refl

caps_up-unreached : (j : ℕ) → is_ipc_to 1 (caps_up.table j) ≡ false
unfolding caps_up is_ipc_to
caps_up-unreached j = refl

create-Born_example :
    (w' : World) × (process_create (λ n. 0) 9 true (some newcomer) early ≡ (success, some 1, w'))
    × Born 1 newcomer true early w'
create-Born_example =
    create-Born (λ n. 0) 9 true 1 newcomer early early-CanCreate caps_up-IsValid caps_up-on
      caps_up-unowned caps_up-unreached
