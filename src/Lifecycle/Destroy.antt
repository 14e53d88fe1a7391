-- ===== src/Lifecycle/Destroy.antt =====
-- process.c: `process_destroy`, step by step in its order, `process_reap` and `process_exit`.
use quantum_os.Prelude.{
  ℕ, zero, suc, ◌+◌, ◌-◌, ◌%◌, ◌^◌, Bool, true, false, not, ◌&&◌, Option, none, some, ◌∷◌, ltb,
  ◌==◌, if◌then◌else◌, and_then,
}
use quantum_os.Capability.State.{System}
use quantum_os.Capability.Revoke.{cap_revoke_all_for_process, cap_revoke_ipc_targets}
use quantum_os.Ipc.Ports.{ipc_process_cleanup}
use quantum_os.Manifest.Table.{max_processes, manifest_clear}
use quantum_os.Net.{net_udp_cleanup, net_tcp_cleanup}
use quantum_os.Process.{
  Fd, Process, Processes, ProcessState, ProcessStatus, process_is_valid, kernel_process_id,
}
use quantum_os.Process.ProcessState.{unused, terminated, zombie}
use quantum_os.Process.ProcessStatus.{success, error, invalid_pid, invalid_state}
use quantum_os.Process.Queue.{store, points_to, remove_from_ready_queue, process_set_state}
use quantum_os.Qpu.Broker.{qpu_on_process_destroy}
use quantum_os.Scheduler.{scheduler_com2_holder_clear, scheduler_console_reader_clear}
use quantum_os.Lifecycle.{World}
use quantum_os.Lifecycle.Family.{process_remove_child}

-- PROCESS_MAX_FDS
abbrev pub process_max_fds : ℕ
process_max_fds = 8

abbrev pub closed_fd : Fd → Fd
closed_fd f = record f { used = false; data_address = 0; writable = false; ram_idx = none }

abbrev pub fds_closed : Process → Process
fds_closed p = record p {
  fds = λ i. if ltb i process_max_fds then closed_fd (p.fds i) else p.fds i;
}

-- `get_current_pid` of ipc.c.
abbrev pub current_pid : Option ℕ → ℕ
current_pid none = kernel_process_id
current_pid (some pid) = pid

-- The ready queue, the descriptors, the message queue and ports, the sockets and connections.
unfoldable pub leave_io : ℕ → World → World
leave_io pid w =
    let ps = store pid fds_closed (remove_from_ready_queue pid w.processes) in
    let ipc = (ipc_process_cleanup (current_pid ps.current) pid w.ipc).1 in
    let (ps1, n1) = net_udp_cleanup pid w.scheduler ps w.net in
    let (ps2, n2) = net_tcp_cleanup pid w.scheduler ps1 n1 in
    record w { processes = ps2; ipc = ipc; net = n2 }

-- What it owns, and what others hold to reach it. `none` is a cascade that ran out of rounds.
unfoldable pub strip_authority : ℕ → ℕ → System → Option System
strip_authority now pid s =
    and_then (cap_revoke_all_for_process now pid s) (cap_revoke_ipc_targets now pid)

abbrev pub capless : Process → Process
capless p = record p { capability_root = 0; capability_count = 0 }

-- The two registrations, the manifest and the jobs.
unfoldable pub drop_claims : ℕ → World → World
drop_claims pid w = record w {
  processes = store pid capless w.processes;
  scheduler = scheduler_console_reader_clear pid (scheduler_com2_holder_clear pid w.scheduler);
  intents = manifest_clear pid w.intents;
  broker = qpu_on_process_destroy pid w.broker;
}

abbrev pub spaceless : Process → Process
spaceless p = record p { virtual_address_space = 0; cr3 = 0 }

abbrev pub stackless : Process → Process
stackless p = record p { owns_kernel_stack = false; stack_bottom = 0; stack_top = 0 }

unfoldable pub free_space : ℕ → World → World
free_space pid w =
    let p = w.processes.table pid in
    let has = not (p.virtual_address_space == 0) in
    record w {
      processes = if has then store pid spaceless w.processes else w.processes;
      freed = if has then p.virtual_address_space ∷ w.freed else w.freed;
    }

unfoldable pub free_stack : ℕ → World → World
free_stack pid w =
    let p = w.processes.table pid in
    let has = p.owns_kernel_stack && not (p.stack_bottom == 0) in
    record w {
      processes = if has then store pid stackless w.processes else w.processes;
      freed = if has then p.stack_bottom ∷ w.freed else w.freed;
    }

abbrev pub is_zombie : ProcessState → Bool
is_zombie zombie = true
is_zombie s = false

-- One less, on 32 bits.
abbrev pub one_less : ℕ → ℕ
one_less n = (n + (2 ^ 32 - 1)) % 2 ^ 32

abbrev pub erased : Process → Process
erased p = record p { state = unused; magic = 0 }

abbrev pub orphan : ℕ → Processes → Processes
orphan pid ps =
    let parent = (ps.table pid).parent_pid in
    if not (parent == kernel_process_id) then (process_remove_child parent pid ps).1 else ps

abbrev pub discount : ℕ → Processes → Processes
discount pid ps =
    let st = ps.statistics in
    if not (is_zombie (ps.table pid).state)
    then record ps { statistics = record st { active_processes = one_less st.active_processes } }
    else ps

unfoldable pub erase : ℕ → World → World
erase pid w = record w { processes = store pid erased (discount pid (orphan pid w.processes)) }

abbrev pub with_caps : ℕ → World → System → World
with_caps pid w s =
    erase pid (free_stack pid (free_space pid (drop_claims pid (record w { caps = s }))))

abbrev pub succeeded : Option World → Option (ProcessStatus × World)
succeeded none = none
succeeded (some w) = some (success, w)

-- The tear-down of a process that may be destroyed.
unfoldable pub tear_down : ℕ → ℕ → World → Option World
tear_down now pid w =
    let left = leave_io pid w in
    and_then (strip_authority now pid left.caps) (λ s. some (with_caps pid left s))

unfoldable pub process_destroy : ℕ → ℕ → World → Option (ProcessStatus × World)
process_destroy now pid w =
    if not w.processes.initialized
    then some (error, w)
    else (if not (process_is_valid pid w.processes)
        then some (invalid_pid, w)
        else (if points_to w.processes.current pid
            then some (invalid_state, w)
            else succeeded (tear_down now pid w)))

abbrev pub is_terminated_state : ProcessState → Bool
is_terminated_state terminated = true
is_terminated_state s = false

-- One round of the reaper, and `n` rounds from `pid`.
unfoldable pub is_reapable : ℕ → Processes → Bool
is_reapable pid ps = is_terminated_state (ps.table pid).state && not (points_to ps.current pid)

abbrev pub world_of : Option (ProcessStatus × World) → Option World
world_of none = none
world_of (some (r, w)) = some w

unfoldable pub reap_one : ℕ → ℕ → World → Option World
reap_one now pid w =
    if is_reapable pid w.processes then world_of (process_destroy now pid w) else some w

unfoldable pub reap_from : ℕ → ℕ → ℕ → World → Option World
reap_from now zero pid w = some w
reap_from now (suc n) pid w = and_then (reap_one now pid w) (reap_from now n (pid + 1))

unfoldable pub process_reap : ℕ → World → Option World
process_reap now w = reap_from now max_processes 0 w

abbrev exits : ℕ → Process → Process
exits code p = record p { exit_code = code; has_exited = true }

unfoldable pub process_exit : ℕ → ℕ → Processes → ProcessStatus × Processes
process_exit pid code ps =
    let st = ps.statistics in
    let gone =
      remove_from_ready_queue pid (process_set_state pid zombie (store pid (exits code) ps)).1 in
    if not ps.initialized
    then (error, ps)
    else (if not (process_is_valid pid ps) then (invalid_pid, ps) else (
      success,
      record gone {
        statistics = record st {
          active_processes = one_less st.active_processes;
          zombie_processes = (st.zombie_processes + 1) % 2 ^ 32;
        };
      },
    ))
