-- ===== src/Lifecycle/Create.antt =====
-- process.c: `process_create` and what it calls.
use quantum_os.Prelude.{
  ℕ, ◌+◌, ◌-◌, ◌*◌, ◌%◌, ◌^◌, Bool, true, false, not, ◌&&◌, ◌||◌, Option, none, some, List, [], ltb,
  ◌==◌, if◌then◌else◌, update, find_first, length, take,
}
use quantum_os.Audit.Ring.{resource_process}
use quantum_os.Capability.State.{cap_id_invalid}
use quantum_os.Capability.Create.{cap_create}
use quantum_os.Ipc.Queue.{IpcResult}
use quantum_os.Ipc.State.{ipc_process_init}
use quantum_os.Manifest.Table.{max_processes}
use quantum_os.Process.{
  CpuState, Process, Processes, ProcessStatus, ProcessType, zero_process, zero_registers,
  process_magic, process_is_valid, kernel_process_id, is_unused, is_user,
}
use quantum_os.Process.ProcessState.{unused, created, ready}
use quantum_os.Process.ProcessStatus.{
  success, error, invalid_arg, invalid_parent, too_many_processes, no_memory,
}
use quantum_os.Process.Queue.{store, add_to_ready_queue, priority_kernel}
use quantum_os.Lifecycle.{World}
use quantum_os.Lifecycle.Family.{process_add_child}

-- `process_create_params_t`. A null pointer to the name is `none`, a null address 0.
pub record Params : Type 0 where
  pub name : Option (List ℕ)
  pub type : ProcessType
  pub priority : ℕ
  pub parent_pid : ℕ
  pub entry_point : ℕ
  pub stack_address : ℕ
  pub stack_size : ℕ
  pub is_quantum_aware : Bool

-- PROCESS_NAME_MAX_LEN, PROCESS_STACK_SIZE, CAP_PERM_ALL, CAP_RESOURCE_QUANTUM,
-- QUANTUM_POOL_RESOURCE_ID, and CAP_QUANTUM with read, write and execute
abbrev pub name_max_len : ℕ
name_max_len = 64

abbrev pub process_stack_size : ℕ
process_stack_size = 8192

abbrev pub perm_all : ℕ
perm_all = 0xff

abbrev pub resource_quantum : ℕ
resource_quantum = 3

abbrev pub quantum_pool : ℕ
quantum_pool = 0

abbrev pub pool_perms : ℕ
pool_perms = 0x27

unfoldable pub find_free_pid : Processes → Option ℕ
find_free_pid ps = find_first max_processes 0 (λ i. is_unused (ps.table i).state)

abbrev pub name_fits : Option (List ℕ) → Bool
name_fits none = false
name_fits (some s) = not (length s == 0) && ltb (length s) name_max_len

unfoldable pub validate_process_params : Option Params → Processes → ProcessStatus
validate_process_params none ps = invalid_arg
validate_process_params (some q) ps =
    if not (name_fits q.name) || (ltb priority_kernel q.priority || q.stack_size == 0)
    then invalid_arg
    else (if not (q.parent_pid == kernel_process_id) && not (process_is_valid q.parent_pid ps)
        then invalid_parent
        else success)

abbrev is_kernel : ProcessType → Bool
is_kernel ProcessType.kernel = true
is_kernel t = false

-- The stack of the process: the one given, one from `kmalloc` for a kernel thread, else a fixed place.
unfoldable pub stack_memory : (ℕ → ℕ) → ℕ → Params → ℕ
stack_memory kmalloc pid q =
    if not (q.stack_address == 0)
    then q.stack_address
    else (if is_kernel q.type then kmalloc q.stack_size else 0x400000 + pid * process_stack_size)

abbrev text_of : Option (List ℕ) → List ℕ
text_of none = []
text_of (some s) = s

-- The stack pointer at entry: 16 bytes aligned, less 8.
abbrev pub entry_rsp : ℕ → ℕ
entry_rsp top = (top - top % 16 + 2 ^ 64 - 8) % 2 ^ 64

-- The registers that the first dispatch loads.
abbrev pub entry_registers : ProcessType → ℕ → ℕ → CpuState
entry_registers type entry top = record zero_registers {
  rip = entry;
  cs = if is_user type then 0x23 else 0x08;
  ss = if is_user type then 0x1b else 0x10;
  eflags = 0x202;
  rsp = entry_rsp top;
}

-- `init_process_pcb`
unfoldable pub init_process_pcb : ℕ → ℕ → Params → Process
init_process_pcb now generation q =
    let rsp = (q.stack_address + q.stack_size + 2 ^ 64 - 8) % 2 ^ 64 in
    record zero_process {
      parent_pid = q.parent_pid;
      name = take (name_max_len - 1) (text_of q.name);
      type = q.type;
      state = created;
      priority = q.priority;
      rip = q.entry_point;
      rsp = rsp;
      rbp = rsp;
      memory_size = q.stack_size;
      stack_top = q.stack_address;
      stack_bottom = q.stack_address;
      last_scheduled = now;
      is_quantum_aware = q.is_quantum_aware;
      generation = generation;
      magic = process_magic;
    }

-- Whether the process is given registers to start with.
abbrev pub starts : ℕ → Params → Bool
starts pid q =
    not (q.entry_point == 0)
    && (not (pid == kernel_process_id) && (is_kernel q.type || is_user q.type))

abbrev pub with_stack : (ℕ → ℕ) → ℕ → Params → Process → Process
with_stack kmalloc pid q p =
    let bottom = stack_memory kmalloc pid q in
    record p {
      stack_bottom = bottom;
      stack_top = (bottom + q.stack_size) % 2 ^ 64;
      owns_kernel_stack = q.stack_address == 0 && is_kernel q.type;
    }

abbrev pub with_entry : ℕ → Params → Process → Process
with_entry pid q p =
    let regs = entry_registers q.type q.entry_point p.stack_top in
    if starts pid q then record p { context = regs; rsp = regs.rsp; context_valid = true } else p

-- The entry as it stands once the registers are built.
unfoldable pub entry_at_birth : (ℕ → ℕ) → ℕ → ℕ → ℕ → Params → Process
entry_at_birth kmalloc now generation pid q =
    with_entry pid q (with_stack kmalloc pid q (init_process_pcb now generation q))

-- The root capability, and its number in the entry where one was made.
abbrev pub with_root : Option ℕ → Process → Process
with_root none p = p
with_root (some id) p = record p { capability_root = id; capability_count = 1 }

abbrev pub with_pool : Option ℕ → Process → Process
with_pool none p = record p { quantum_cap = cap_id_invalid }
with_pool (some id) p = record p {
  quantum_cap = id;
  capability_count = (p.capability_count + 1) % 2 ^ 32;
}

unfoldable pub grant_root : ℕ → ℕ → World → World
grant_root now pid w =
    let (r, id, s) = cap_create now pid resource_process pid perm_all 0 true w.caps in
    record w { caps = s; processes = store pid (with_root id) w.processes }

-- `quantum_grant`, if the pool was initialized and the process is to have it.
unfoldable pub grant_pool : ℕ → ℕ → Bool → World → World
grant_pool now pid wanted w =
    let (r, id, s) = cap_create now pid resource_quantum quantum_pool pool_perms 0 true w.caps in
    record w {
      caps = if wanted then s else w.caps;
      processes = store pid (with_pool (if wanted then id else none)) w.processes;
    }

-- The statistics, the state and the ready queue.
unfoldable pub enter : ℕ → World → World
enter pid w =
    let ps = w.processes in
    let st = ps.statistics in
    let counted = record ps {
      statistics = record st {
        total_processes = (st.total_processes + 1) % 2 ^ 32;
        active_processes = (st.active_processes + 1) % 2 ^ 32;
      };
    } in
    record w {
      processes = add_to_ready_queue pid (store pid (λ p. record p { state = ready }) counted);
    }

abbrev pub ipc_ok : IpcResult → Bool
ipc_ok IpcResult.success = true
ipc_ok r = false

-- The new entry in its slot, its generations, and its parent told.
unfoldable pub place : (ℕ → ℕ) → ℕ → ℕ → Params → Processes → Processes
place kmalloc now pid q ps =
    let e = entry_at_birth kmalloc now ps.generation_next pid q in
    let placed = record ps {
      table = update ps.table pid e;
      generation_next = (ps.generation_next + 1) % 2 ^ 32;
    } in
    if not (q.parent_pid == kernel_process_id)
    then (process_add_child q.parent_pid pid placed).1
    else placed

-- From the place in the table on.
unfoldable pub set_up : (ℕ → ℕ) → ℕ → Bool → ℕ → Params → World → ProcessStatus × Option ℕ × World
set_up kmalloc now pool_on pid q w =
    let ps = place kmalloc now pid q w.processes in
    let (r, ipc) = ipc_process_init pid w.ipc in
    let opened = record w { processes = ps; ipc = ipc } in
    let undone = record opened { processes = store pid (λ p. record p { state = unused }) ps } in
    if ipc_ok r
    then (
      success,
      some pid,
      enter pid (grant_pool now pid (q.is_quantum_aware && pool_on) (grant_root now pid opened)),
    )
    else (error, none, undone)

-- In a free slot, whose generation is counted up before memory is asked for.
unfoldable pub create_at :
    (ℕ → ℕ) → ℕ → Bool → ℕ → Params → World → ProcessStatus × Option ℕ × World
create_at kmalloc now pool_on pid q w =
    let ps = w.processes in
    let bumped = record w {
      processes = record ps {
        slot_generation = update ps.slot_generation pid ((ps.slot_generation pid + 1) % 2 ^ 32);
      };
    } in
    if stack_memory kmalloc pid q == 0
    then (no_memory, none, bumped)
    else set_up kmalloc now pool_on pid q bumped

abbrev pub create_in :
    (ℕ → ℕ) → ℕ → Bool → Option ℕ → Params → World → ProcessStatus × Option ℕ × World
create_in kmalloc now pool_on none q w = (too_many_processes, none, w)
create_in kmalloc now pool_on (some pid) q w = create_at kmalloc now pool_on pid q w

abbrev pub checked :
    (ℕ → ℕ) → ℕ → Bool → ProcessStatus → Params → World → ProcessStatus × Option ℕ × World
checked kmalloc now pool_on success q w =
    create_in kmalloc now pool_on (find_free_pid w.processes) q w
checked kmalloc now pool_on refusal q w = (refusal, none, w)

-- The table must be initialized; the test seam, if armed, fails the call once.
abbrev pub admitted :
    Bool → Bool → World → ProcessStatus × Option ℕ × World → ProcessStatus × Option ℕ × World
admitted false fails w rest = (error, none, w)
admitted true true w rest =
    let ps = w.processes in
    (too_many_processes, none, record w { processes = record ps { fail_next_create = false } })
admitted true false w rest = rest

-- `kmalloc` gives the address for a size, 0 for none left; `pool_on` is `quantum_initialized`. The pid
-- is what is stored through `process`.
unfoldable pub process_create :
    (ℕ → ℕ) → ℕ → Bool → Option Params → World → ProcessStatus × Option ℕ × World
process_create kmalloc now pool_on none w =
    admitted w.processes.initialized w.processes.fail_next_create w (invalid_arg, none, w)
process_create kmalloc now pool_on (some q) w =
    admitted w.processes.initialized w.processes.fail_next_create w
      (checked kmalloc now pool_on (validate_process_params (some q) w.processes) q w)
