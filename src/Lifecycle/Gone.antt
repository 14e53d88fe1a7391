-- ===== src/Lifecycle/Gone.antt =====
-- What `process_destroy` leaves of a process in the components: nothing that the next holder of its pid
-- could use.
use quantum_os.Prelude.{
  ℕ, ◌<◌, true, false, none, some, leb, ◌==◌, ◌≡◌, ◌≢◌, ◌++◌, refl, sym, subst, inl, inr, arith, ap,
  ◌∙◌, Bool-cases,
}
use quantum_os.Capability.Invariant.{IsValid}
use quantum_os.Ipc.State.{max_ports}
use quantum_os.Ipc.Ports.{ipc_process_cleanup}
use quantum_os.Ipc.Cleanup.{Distinct, is_due}
use quantum_os.Manifest.Table.{max_processes, Intents, empty_manifest, manifest_clear}
use quantum_os.Net.{
  Net, UdpSock, udp_sock_max, tcp_max_listeners, is_udp_of, is_client_of, is_server_of,
  net_udp_cleanup, net_tcp_cleanup,
}
use quantum_os.Process.{Fd, Process, Processes, kernel_process_id, process_is_valid}
use quantum_os.Process.ProcessState.{unused}
use quantum_os.Process.ProcessStatus.{success}
use quantum_os.Process.Queue.{store, points_to, remove_from_ready_queue}
use quantum_os.Process.Essence.{store_self, remove-Alike, valid_entry, valid_entry_lem}
use quantum_os.Qpu.Jobs.{max_jobs}
use quantum_os.Qpu.Death.{Swept, sweep-Swept}
use quantum_os.Scheduler.{Scheduler, scheduler_com2_holder_clear, scheduler_console_reader_clear}
use quantum_os.Lifecycle.{World}
use quantum_os.Lifecycle.Destroy.{
  process_max_fds, closed_fd, fds_closed, capless, current_pid, leave_io, drop_claims, free_space,
  free_stack, erase, erased, discount, orphan, with_caps, tear_down, process_destroy,
}
use quantum_os.Lifecycle.Bystanders.{
  Bystanders, with_caps-Bystanders, with_caps-stripped, with_caps-freed, stripped, has_space,
  has_stack, without_space, without_stack, given_back,
}
use quantum_os.Lifecycle.Tags.{bare}
use quantum_os.Lifecycle.Stripped.{
  IsStripped, strip_authority-IsStripped, cleanup-shuts, cleanup-channels, cleanup-closes,
}

-- A descriptor that is not in use and points to no data.
pub record Closed (d : Fd) : Type 0 where
  pub used : d.used ≡ false
  pub no_data : d.data_address ≡ 0
  pub read_only : d.writable ≡ false
  pub no_file : d.ram_idx ≡ none

-- What is left of `pid` in the world `w'` after its tear-down in `w`. Its running jobs stay, orphaned, its
-- channels stay, and its ports are closed where the kernel runs the tear-down. The pid 0 is what the two
-- registrations hold when nobody is registered.
pub record Gone (pid : ℕ) (w w' : World) : Type 0 where
  pub authority : IsStripped pid w.caps w'.caps
  pub intent : w'.intents pid ≡ empty_manifest
  pub queue : w'.ipc.queue_initialized pid ≡ false
  pub ports :
      Distinct w.ipc.ports
      → w.ipc.queue_initialized pid ≡ true
      → current_pid w.processes.current ≡ kernel_process_id
      → (i : ℕ) → i < max_ports
      → is_due pid (w'.ipc.ports i) ≡ false
  pub channels : w'.ipc.channels ≡ w.ipc.channels
  pub files : (i : ℕ) → i < process_max_fds → Closed ((w'.processes.table pid).fds i)
  pub no_space :
      ((w'.processes.table pid).virtual_address_space ≡ 0)
      × (has_stack (w'.processes.table pid) ≡ false)
  pub given :
      let p = w.processes.table pid in
      w'.freed
      ≡ given_back (has_stack p) p.stack_bottom
        ++ (given_back (has_space p) p.virtual_address_space ++ w.freed)
  pub net_thread : w'.scheduler.net_thread_pid ≡ w.scheduler.net_thread_pid
  pub sockets : (i : ℕ) → i < udp_sock_max → is_udp_of pid (w'.net.udp_socks i) ≡ false
  pub client : is_client_of pid w'.net.tcb ≡ true → w'.net.tcb.abort_req ≡ true
  pub servers :
      (i : ℕ)
      → i < tcp_max_listeners
      → is_server_of pid (w'.net.tcb_srv i) ≡ true
      → (w'.net.tcb_srv i).abort_req ≡ true
  pub jobs : (i : ℕ) → i < max_jobs → Swept pid (w.broker.jobs i) (w'.broker.jobs i)
  pub holder : pid ≢ 0 → w'.scheduler.com2_holder_pid ≢ pid
  pub reader : pid ≢ 0 → w'.scheduler.cons_reader_pid ≢ pid
  pub slot : (w'.processes.table pid).state ≡ unused
  pub invalid : process_is_valid pid w'.processes ≡ false

udp-closed :
    (pid : ℕ) (s : Scheduler) (ps : Processes) (n : Net) (i : ℕ)
    → i < udp_sock_max
    → is_udp_of pid ((net_udp_cleanup pid s ps n).1.udp_socks i) ≡ false
unfolding net_udp_cleanup
udp-closed pid s ps n i below = ground (arith, below, Bool-cases (is_udp_of pid (n.udp_socks i)))

tcp-udp :
    (pid : ℕ) (s : Scheduler) (ps : Processes) (n : Net)
    → (net_tcp_cleanup pid s ps n).1.udp_socks ≡ n.udp_socks
unfolding net_tcp_cleanup
tcp-udp pid s ps n = refl

sockets-closed :
    (pid : ℕ) (s : Scheduler) (ps ps' : Processes) (n : Net) (i : ℕ)
    → i < udp_sock_max
    → is_udp_of pid ((net_tcp_cleanup pid s ps' (net_udp_cleanup pid s ps n).1).1.udp_socks i)
      ≡ false
sockets-closed pid s ps ps' n i below =
    ap (λ (u : ℕ → UdpSock). is_udp_of pid (u i)) (tcp-udp pid s ps' (net_udp_cleanup pid s ps n).1)
    ∙ udp-closed pid s ps n i below

client-aborts :
    (pid : ℕ) (s : Scheduler) (ps : Processes) (n : Net)
    → let c = (net_tcp_cleanup pid s ps n).1.tcb in is_client_of pid c ≡ true → c.abort_req ≡ true
unfolding net_tcp_cleanup
client-aborts pid s ps n live = elim (Bool-cases (is_client_of pid n.tcb)) [
  | inl mine ↦ rw mine refl
  | inr other ↦ absurd (ground (arith, other, rw other at live))
]

server-aborts :
    (pid : ℕ) (s : Scheduler) (ps : Processes) (n : Net) (i : ℕ)
    → i < tcp_max_listeners
    → let c = (net_tcp_cleanup pid s ps n).1.tcb_srv i in
      is_server_of pid c ≡ true → c.abort_req ≡ true
unfolding net_tcp_cleanup
server-aborts pid s ps n i below live =
    ground (arith, below, live, Bool-cases (is_server_of pid (n.tcb_srv i)))

holder-cleared :
    (pid : ℕ) (s : Scheduler)
    → pid ≢ 0
    → let t = scheduler_console_reader_clear pid (scheduler_com2_holder_clear pid s) in
      (t.com2_holder_pid ≢ pid) × (t.cons_reader_pid ≢ pid)
unfolding scheduler_console_reader_clear scheduler_com2_holder_clear
holder-cleared pid s nz = (
  (λ e.
      ground (
        arith,
        nz,
        e,
        Bool-cases (s.com2_holder_pid == pid),
        Bool-cases (s.cons_reader_pid == pid),
      )),
  (λ e.
      ground (
        arith,
        nz,
        e,
        Bool-cases (s.com2_holder_pid == pid),
        Bool-cases (s.cons_reader_pid == pid),
      )),
)

cleared : (pid : ℕ) (t : Intents) → pid < max_processes → manifest_clear pid t pid ≡ empty_manifest
unfolding manifest_clear
cleared pid t below = ground (arith, below)

erased-slot :
    (pid : ℕ) (w : World)
    → (((erase pid w).processes.table pid).state ≡ unused)
      × (process_is_valid pid (erase pid w).processes ≡ false)
unfolding erase
erased-slot pid w =
    let ps = discount pid (orphan pid w.processes) in
    let is = store_self pid erased ps in
    (
      ap (λ (p : Process). p.state) is,
      valid_entry_lem pid (store pid erased ps)
          ∙ ap (valid_entry pid) is
          ∙ ground (arith, Bool-cases (leb max_processes pid)),
    )

stripped-files : (p : Process) (i : ℕ) → i < process_max_fds → Closed ((stripped p).fds i)
stripped-files p i small =
    let closed : (stripped p).fds i ≡ closed_fd (p.fds i) =
      ground (arith, small, Bool-cases (has_space p), Bool-cases (has_stack (without_space p))) in
    subst Closed (sym closed)
      (record { used = refl; no_data = refl; read_only = refl; no_file = refl })

without_space-none : (p : Process) → (without_space p).virtual_address_space ≡ 0
without_space-none p = ground (arith, Bool-cases (has_space p))

without_stack-none :
    (p : Process)
    → ((without_stack p).virtual_address_space ≡ p.virtual_address_space)
      × (has_stack (without_stack p) ≡ false)
without_stack-none p = elim (Bool-cases (has_stack p)) [
  | inl has ↦ rw has (refl, refl)
  | inr none_ ↦ rw none_ (refl, none_)
]

-- The ports after the tear-down by the kernel.
leave_io-closes :
    (pid : ℕ) (w : World)
    → pid < max_processes
    → Distinct w.ipc.ports
    → w.ipc.queue_initialized pid ≡ true
    → current_pid w.processes.current ≡ kernel_process_id
    → (i : ℕ) → i < max_ports
    → is_due pid ((leave_io pid w).ipc.ports i) ≡ false
unfolding leave_io
leave_io-closes pid w below d open_ by_kernel i small =
    let runner : current_pid (remove_from_ready_queue pid w.processes).current ≡ kernel_process_id =
      ap current_pid (remove-Alike pid w.processes).current ∙ by_kernel in
    ap (λ c. is_due pid ((ipc_process_cleanup c pid w.ipc).1.ports i)) runner
    ∙ cleanup-closes pid w.ipc d below open_ i small

clears-thread :
    (pid : ℕ) (s : Scheduler)
    → (scheduler_console_reader_clear pid (scheduler_com2_holder_clear pid s)).net_thread_pid
      ≡ s.net_thread_pid
unfolding scheduler_console_reader_clear scheduler_com2_holder_clear
clears-thread pid s = ground arith

module _ (now pid : ℕ) (w : World) (below : pid < max_processes) (v : IsValid w.caps) where
  -- The tear-down returns, whatever the process is.
  tear_down-Gone :
      (w' : World) × (tear_down now pid w ≡ some w')
      × Gone pid w w'
      × Bystanders pid w.processes w'.processes
  unfolding tear_down leave_io drop_claims free_space free_stack erase
  tear_down-Gone =
      let left = leave_io pid w in
      let (s', stripped, authority) = strip_authority-IsStripped now pid left.caps v in
      let own = with_caps-stripped pid w s' in
      let bare_ = capless (fds_closed (bare (w.processes.table pid))) in
      let space_gone = without_space-none bare_ in
      let stack_gone = without_stack-none (without_space bare_) in
      let dropped = free_stack pid (free_space pid (drop_claims pid (record left { caps = s' }))) in
      (
        with_caps pid left s',
        rw stripped refl,
        record {
          authority = authority;
          intent = cleared pid w.intents below;
          queue = cleanup-shuts _ pid w.ipc below;
          ports = leave_io-closes pid w below;
          channels = cleanup-channels _ pid w.ipc;
          files = λ i small.
              subst (λ (f : ℕ → Fd). Closed (f i)) (ap (λ (p : Process). p.fds) (sym own))
                (stripped-files (bare (w.processes.table pid)) i small);
          no_space = (
            ap (λ (p : Process). p.virtual_address_space) own ∙ stack_gone.0 ∙ space_gone,
            ap has_stack own ∙ stack_gone.1,
          );
          given = with_caps-freed pid w s';
          net_thread = clears-thread pid w.scheduler;
          sockets = sockets-closed pid w.scheduler _ _ w.net;
          client = client-aborts pid w.scheduler _ _;
          servers = λ i small live. server-aborts pid w.scheduler _ _ i small live;
          jobs = λ i small. sweep-Swept pid w.broker i small;
          holder = λ nz. (holder-cleared pid w.scheduler nz).0;
          reader = λ nz. (holder-cleared pid w.scheduler nz).1;
          slot = (erased-slot pid dropped).0;
          invalid = (erased-slot pid dropped).1;
        },
        with_caps-Bystanders pid w s',
      )

  destroy_succeeds :
      w.processes.initialized ≡ true
      → process_is_valid pid w.processes ≡ true
      → points_to w.processes.current pid ≡ false
      → {w' : World} → tear_down now pid w ≡ some w'
      → process_destroy now pid w ≡ some (success, w')
  unfolding process_destroy
  destroy_succeeds on valid idle torn = rw (torn, valid, idle) (simp (on))

-- With a valid capability table, `process_destroy` of a valid process that is not the current one
-- returns success, and leaves of it: no capability that it owns or that is an IPC capability for its
-- pid, no declared intent, no open message queue, no descriptor in use, no live socket, no connection
-- that is not told to abort, no job but a running one that is marked orphaned, no registration as
-- holder or reader with the scheduler, no address space, no stack of its own and no valid entry. The two
-- addresses are given back, once each, where it had them. Its ports are closed if the kernel runs the
-- call, its queue was open and the open ports' numbers are distinct; its channels stay. Each other
-- capability is kept or freed; the entry of each other process changes at most in its links in the ready
-- queue, its times, its boost and its children, so it keeps its state and its validity; and the current
-- process stays.
pub destroy-Gone :
    (now pid : ℕ) (w : World)
    → pid < max_processes
    → IsValid w.caps
    → w.processes.initialized ≡ true
    → process_is_valid pid w.processes ≡ true
    → points_to w.processes.current pid ≡ false
    → (w' : World) × (process_destroy now pid w ≡ some (success, w'))
      × Gone pid w w'
      × Bystanders pid w.processes w'.processes
destroy-Gone now pid w below v on valid idle =
    let (w', torn, gone, others) = tear_down-Gone now pid w below v in
    (w', destroy_succeeds now pid w below v on valid idle torn, gone, others)
