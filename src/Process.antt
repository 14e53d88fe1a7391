-- ===== src/Process.antt =====
-- process.c and process.h: the process control block, the process table, and its lookups. A pointer to
-- `process_table[pid]` is `pid` here, so an entry's own `pid` field, which holds its index, is not kept.
use quantum_os.Prelude.{
  ℕ, Bool, true, false, not, ◌&&◌, Option, none, some, List, [], leb, ◌==◌, if◌then◌else◌,
}
use quantum_os.Manifest.Table.{max_processes}
pub mod Queue
pub mod Essence

-- KERNEL_PROCESS_ID and PROCESS_0x50524F43
abbrev pub kernel_process_id : ℕ
kernel_process_id = 0

abbrev pub process_magic : ℕ
process_magic = 0x50524F43

-- `process_state_t`
pub data ProcessState : Type 0 where
  unused created ready running blocked terminated zombie : ProcessState

-- `process_type_t`
pub data ProcessType : Type 0 where
  kernel user service quantum : ProcessType

-- The values of `status_t` that process.c returns.
pub data ProcessStatus : Type 0 where
  success error invalid_arg invalid_pid invalid_state : ProcessStatus
  invalid_parent too_many_processes no_memory not_found : ProcessStatus

-- `cpu_state_t`, the registers on the interrupt frame.
pub record CpuState : Type 0 where
  pub r15 : ℕ
  pub r14 : ℕ
  pub r13 : ℕ
  pub r12 : ℕ
  pub r11 : ℕ
  pub r10 : ℕ
  pub r9 : ℕ
  pub r8 : ℕ
  pub rdi : ℕ
  pub rsi : ℕ
  pub rbp : ℕ
  pub rbx : ℕ
  pub rdx : ℕ
  pub rcx : ℕ
  pub rax : ℕ
  pub int_no : ℕ
  pub err_code : ℕ
  pub rip : ℕ
  pub cs : ℕ
  pub eflags : ℕ
  pub rsp : ℕ
  pub ss : ℕ

-- One element of `fds`. The null pointer is 0, and the index -1 is `none`.
pub record Fd : Type 0 where
  pub data_address : ℕ
  pub size : ℕ
  pub offset : ℕ
  pub used : Bool
  pub writable : Bool
  pub ram_idx : Option ℕ

-- `process_t`. Left out are `creation_time`, `port_count` and the counters in `quantum`, which
-- nothing reads. `next` and `prev` are the links of the ready queue.
pub record Process : Type 0 where
  pub parent_pid : ℕ
  pub name : List ℕ
  pub type : ProcessType
  pub state : ProcessState
  pub priority : ℕ
  pub rip : ℕ
  pub rsp : ℕ
  pub rbp : ℕ
  pub cr3 : ℕ
  pub context : CpuState
  pub context_valid : Bool
  pub virtual_address_space : ℕ
  pub memory_size : ℕ
  pub stack_top : ℕ
  pub stack_bottom : ℕ
  pub owns_kernel_stack : Bool
  pub runtime_total : ℕ
  pub runtime_last : ℕ
  pub last_scheduled : ℕ
  pub sched_picks : ℕ
  pub io_boost : Bool
  pub capability_root : ℕ
  pub capability_count : ℕ
  pub children : ℕ → ℕ
  pub child_count : ℕ
  pub exit_code : ℕ
  pub has_exited : Bool
  pub generation : ℕ
  pub is_quantum_aware : Bool
  pub quantum_cap : ℕ
  pub fds : ℕ → Fd
  pub magic : ℕ
  pub next : Option ℕ
  pub prev : Option ℕ

abbrev pub zero_registers : CpuState
zero_registers = record {
  r15 = 0;
  r14 = 0;
  r13 = 0;
  r12 = 0;
  r11 = 0;
  r10 = 0;
  r9 = 0;
  r8 = 0;
  rdi = 0;
  rsi = 0;
  rbp = 0;
  rbx = 0;
  rdx = 0;
  rcx = 0;
  rax = 0;
  int_no = 0;
  err_code = 0;
  rip = 0;
  cs = 0;
  eflags = 0;
  rsp = 0;
  ss = 0;
}

-- What `memset` to zero leaves. The index 0 of a descriptor is `some 0`.
abbrev pub zero_process : Process
zero_process = record {
  parent_pid = 0;
  name = [];
  type = kernel;
  state = unused;
  priority = 0;
  rip = 0;
  rsp = 0;
  rbp = 0;
  cr3 = 0;
  context = zero_registers;
  context_valid = false;
  virtual_address_space = 0;
  memory_size = 0;
  stack_top = 0;
  stack_bottom = 0;
  owns_kernel_stack = false;
  runtime_total = 0;
  runtime_last = 0;
  last_scheduled = 0;
  sched_picks = 0;
  io_boost = false;
  capability_root = 0;
  capability_count = 0;
  children = λ _. 0;
  child_count = 0;
  exit_code = 0;
  has_exited = false;
  generation = 0;
  is_quantum_aware = false;
  quantum_cap = 0;
  fds = λ _. record {
    data_address = 0;
    size = 0;
    offset = 0;
    used = false;
    writable = false;
    ram_idx = some 0;
  };
  magic = 0;
  next = none;
  prev = none;
}

-- `process_stats_t`, without the total that is never written.
pub record Statistics : Type 0 where
  pub total_processes : ℕ
  pub active_processes : ℕ
  pub zombie_processes : ℕ
  pub context_switches : ℕ

-- The statics of process.c: `process_table[256]` and `process_generation[256]` by pid, the heads of
-- the ready queues by priority, `current_process`, the statistics and the flags.
pub record Processes : Type 0 where
  pub table : ℕ → Process
  pub slot_generation : ℕ → ℕ
  pub generation_next : ℕ
  pub initialized : Bool
  pub fail_next_create : Bool
  pub current : Option ℕ
  pub ready_queue : ℕ → Option ℕ
  pub statistics : Statistics

-- The statics before `process_init`.
abbrev pub no_processes : Processes
no_processes = record {
  table = λ _. zero_process;
  slot_generation = λ _. 0;
  generation_next = 1;
  initialized = false;
  fail_next_create = false;
  current = none;
  ready_queue = λ _. none;
  statistics = record {
    total_processes = 0;
    active_processes = 0;
    zombie_processes = 0;
    context_switches = 0;
  };
}

abbrev pub is_unused : ProcessState → Bool
is_unused unused = true
is_unused s = false

-- Running or ready.
abbrev pub is_schedulable : ProcessState → Bool
is_schedulable ready = true
is_schedulable running = true
is_schedulable s = false

abbrev pub is_ready : ProcessState → Bool
is_ready ready = true
is_ready s = false

abbrev pub is_executing : ProcessState → Bool
is_executing running = true
is_executing s = false

abbrev pub is_user : ProcessType → Bool
is_user user = true
is_user t = false

unfoldable pub process_is_valid : ℕ → Processes → Bool
process_is_valid pid ps =
    if leb max_processes pid
    then false
    else ((ps.table pid).magic == process_magic && not (is_unused (ps.table pid).state))

-- The process in place of the pointer to it.
unfoldable pub process_get_by_pid : ℕ → Processes → Option Process
process_get_by_pid pid ps = if process_is_valid pid ps then some (ps.table pid) else none

unfoldable pub process_get_generation : ℕ → Processes → ℕ
process_get_generation pid ps = if leb max_processes pid then 0 else ps.slot_generation pid
