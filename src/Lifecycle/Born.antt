-- ===== src/Lifecycle/Born.antt =====
-- What a process has when `process_create` succeeds.
use quantum_os.Prelude.{
  ℕ, ◌+◌, ◌%◌, ◌^◌, ◌<◌, Bool, true, false, ◌&&◌, some, ◌==◌, ◌≡◌, ◌≢◌, ◌⊎◌, inl, inr, sym, subst,
  refl, arith, ap, ◌∙◌, Bool-cases, update, update_self, find_first-some, find_first-least,
  find_first-at,
}
use quantum_os.Capability.Invariant.{IsValid}
use quantum_os.Capability.Revoke.{is_owned_by, is_ipc_to}
use quantum_os.Ipc.Queue.{fresh_queue, open_}
use quantum_os.Ipc.State.{Ipc, Port, max_ports, ipc_process_init}
use quantum_os.Ipc.Cleanup.{Distinct, is_due}
use quantum_os.Manifest.Table.{max_processes, Intents, empty_manifest}
use quantum_os.Process.{Process, Processes, kernel_process_id, is_unused, process_is_valid}
use quantum_os.Process.ProcessState.{ready, unused}
use quantum_os.Process.ProcessStatus.{success}
use quantum_os.Process.Queue.{store, points_to}
use quantum_os.Process.Essence.{add-Alike, store_self}
use quantum_os.Net.{Net, udp_sock_max, tcp_max_listeners, is_udp_of, is_client_of, is_server_of}
use quantum_os.Qpu.Jobs.{Broker, max_jobs}
use quantum_os.Qpu.Death.{Swept}
use quantum_os.Scheduler.{Scheduler}
use quantum_os.Lifecycle.{World}
use quantum_os.Lifecycle.Destroy.{process_destroy, current_pid}
use quantum_os.Lifecycle.Bystanders.{Bystanders}
use quantum_os.Lifecycle.Gone.{Gone, destroy-Gone}
use quantum_os.Lifecycle.Create.{
  Params, find_free_pid, create_in, checked, admitted, create_at, set_up, stack_memory, ipc_ok,
  validate_process_params, place, grant_root, grant_pool, enter, process_create,
}
use quantum_os.Lifecycle.Births.{Rights, grants-Rights}
use quantum_os.Lifecycle.Entry.{
  settled, Blank, birth-Blank, ungranted, ungranted-Blank, Blank-ungranted, place-entry, root-reads,
  pool-reads, with_root-ungranted, with_pool-ungranted, place-generations,
}

-- The process `pid` of `w'`, made in a slot of `w`.
pub record Born (pid : ℕ) (q : Params) (pool_on : Bool) (w w' : World) : Type 0 where
  pub was_free : is_unused (w.processes.table pid).state ≡ true
  pub lowest : (k : ℕ) → k < pid → is_unused (w.processes.table k).state ≡ false
  pub rights : Rights pid q pool_on w.caps w'.caps
  pub is_ready : (w'.processes.table pid).state ≡ ready
  pub entry : Blank pid q (w'.processes.table pid)
  pub generation : w'.processes.slot_generation pid ≡ (w.processes.slot_generation pid + 1) % 2 ^ 32
  pub opened : w'.ipc.queue_initialized pid ≡ true
  pub queue : w.ipc.queue_initialized pid ≡ false → w'.ipc.process_queues pid ≡ fresh_queue open_
  pub ports : w'.ipc.ports ≡ w.ipc.ports
  pub channels : w'.ipc.channels ≡ w.ipc.channels
  pub intents : w'.intents ≡ w.intents
  pub broker : w'.broker ≡ w.broker
  pub net : w'.net ≡ w.net
  pub scheduler : w'.scheduler ≡ w.scheduler

find_free_pid-lowest :
    (ps : Processes) {pid : ℕ}
    → find_free_pid ps ≡ some pid
    → (is_unused (ps.table pid).state ≡ true)
      × ((k : ℕ) → k < pid → is_unused (ps.table k).state ≡ false)
unfolding find_free_pid
find_free_pid-lowest ps {pid} e =
    let free = λ (i : ℕ). is_unused (ps.table i).state in
    (
      (find_first-some max_processes 0 free {k = pid} e).0,
      λ k h. find_first-least max_processes 0 free {k = pid} k e (omega arith) h,
    )

find_free_pid-below : (ps : Processes) {pid : ℕ} → find_free_pid ps ≡ some pid → pid < max_processes
unfolding find_free_pid
find_free_pid-below ps {pid} e =
    omega
      (arith, (find_first-some max_processes 0 (λ i. is_unused (ps.table i).state) {k = pid} e).2)

ipc_opens : (pid : ℕ) (s : Ipc) → pid < max_processes → ipc_ok (ipc_process_init pid s).0 ≡ true
unfolding ipc_process_init
ipc_opens pid s below = ground (arith, below, Bool-cases (s.queue_initialized pid))

ipc_queue :
    (pid : ℕ) (s : Ipc)
    → pid < max_processes
    → ((ipc_process_init pid s).1.queue_initialized pid ≡ true)
      × (s.queue_initialized pid ≡ false
          → (ipc_process_init pid s).1.process_queues pid ≡ fresh_queue open_)
unfolding ipc_process_init
ipc_queue pid s below = (
  ground (arith, below, Bool-cases (s.queue_initialized pid)),
  λ shut. ground (arith, below, shut),
)

ipc_ports :
    (pid : ℕ) (s : Ipc)
    → ((ipc_process_init pid s).1.ports ≡ s.ports)
      × ((ipc_process_init pid s).1.channels ≡ s.channels)
unfolding ipc_process_init
ipc_ports pid s = (ground arith, ground arith)

-- What the call needs to succeed: a table that is set up, parameters that pass, and memory for a stack.
pub record CanCreate (kmalloc : ℕ → ℕ) (pid : ℕ) (q : Params) (ps : Processes) : Type 0 where
  pub on : ps.initialized ≡ true
  pub calm : ps.fail_next_create ≡ false
  pub passes : validate_process_params (some q) ps ≡ success
  pub free : find_free_pid ps ≡ some pid
  pub memory : (stack_memory kmalloc pid q == 0) ≡ false

create_at-settled :
    (kmalloc : ℕ → ℕ) (now : ℕ) (pool_on : Bool) (pid : ℕ) (q : Params) (w : World)
    → pid < max_processes
    → (stack_memory kmalloc pid q == 0) ≡ false
    → create_at kmalloc now pool_on pid q w
      ≡ (success, some pid, settled kmalloc now pool_on pid q w)
unfolding create_at set_up
create_at-settled kmalloc now pool_on pid q w below memory =
    rw (memory, ipc_opens pid w.ipc below) refl

create-settled :
    (kmalloc : ℕ → ℕ) (now : ℕ) (pool_on : Bool) (pid : ℕ) (q : Params) (w : World)
    → CanCreate kmalloc pid q w.processes
    → process_create kmalloc now pool_on (some q) w
      ≡ (success, some pid, settled kmalloc now pool_on pid q w)
unfolding process_create
create-settled kmalloc now pool_on pid q w c =
    let rest = checked kmalloc now pool_on (validate_process_params (some q) w.processes) q w in
    ap (λ b. admitted b w.processes.fail_next_create w rest) c.on
    ∙ ap (λ b. admitted true b w rest) c.calm
    ∙ ap (λ s. checked kmalloc now pool_on s q w) c.passes
    ∙ ap (λ o. create_in kmalloc now pool_on o q w) c.free
    ∙ create_at-settled kmalloc now pool_on pid q w (find_free_pid-below w.processes c.free)
        c.memory

-- Parameters that pass name the kernel as the parent, or a process in use.
other_parent :
    (pid : ℕ) (q : Params) (ps : Processes)
    → validate_process_params (some q) ps ≡ success
    → is_unused (ps.table pid).state ≡ true
    → (q.parent_pid ≡ kernel_process_id) ⊎ (q.parent_pid ≢ pid)
unfolding validate_process_params process_is_valid
other_parent pid q ps passes free = elim (Bool-cases (q.parent_pid == kernel_process_id)) [
  | inl kernel ↦ inl (ground (arith, kernel))
  | inr child ↦ inr (λ e.
      let unused_ : is_unused (ps.table q.parent_pid).state ≡ true =
        ap (λ k. is_unused (ps.table k).state) e ∙ free in
      absurd (ground (arith, child, passes, unused_)))
]

settled-Born :
    (kmalloc : ℕ → ℕ) (now : ℕ) (pool_on : Bool) (pid : ℕ) (q : Params) (w : World)
    → IsValid w.caps
    → w.caps.initialized ≡ true
    → ((j : ℕ) → is_owned_by pid (w.caps.table j) ≡ false)
    → ((j : ℕ) → is_ipc_to pid (w.caps.table j) ≡ false)
    → validate_process_params (some q) w.processes ≡ success
    → find_free_pid w.processes ≡ some pid
    → Born pid q pool_on w (settled kmalloc now pool_on pid q w)
unfolding enter grant_pool grant_root
settled-Born kmalloc now pool_on pid q w v on none_owned none_inbound passes free =
    let (was_free, lowest) = find_free_pid-lowest w.processes free in
    let below = find_free_pid-below w.processes free in
    let ps = w.processes in
    let bumped = record ps {
      slot_generation = update ps.slot_generation pid ((ps.slot_generation pid + 1) % 2 ^ 32);
    } in
    let opened = record w {
      processes = place kmalloc now pid q bumped;
      ipc = (ipc_process_init pid w.ipc).1;
    } in
    let wanted = q.is_quantum_aware && pool_on in
    let rooted_world = grant_root now pid opened in
    let granted = grant_pool now pid wanted rooted_world in
    let runs = λ (p : Process). record p { state = ready } in
    let st = granted.processes.statistics in
    let counted = record (granted.processes) {
      statistics = record st {
        total_processes = (st.total_processes + 1) % 2 ^ 32;
        active_processes = (st.active_processes + 1) % 2 ^ 32;
      };
    } in
    let queued = add-Alike pid (store pid runs counted) in
    let entry = queued.entries pid in
    let self = store_self pid runs counted in
    let mine =
      ap ungranted entry
      ∙ ap ungranted self
      ∙ pool-reads ungranted with_root-ungranted with_pool-ungranted now pid wanted pid rooted_world
      ∙ root-reads ungranted with_root-ungranted with_pool-ungranted now pid pid opened
      ∙ ap ungranted
          (place-entry kmalloc now pid q bumped (other_parent pid q ps passes was_free)) in
    let blank = Blank-ungranted (birth-Blank kmalloc now ps.generation_next pid q) in
    record {
      was_free = was_free;
      lowest = lowest;
      rights = grants-Rights now pid q pool_on opened v on none_owned none_inbound;
      is_ready = ap (λ (p : Process). p.state) entry ∙ ap (λ (p : Process). p.state) self;
      entry = ungranted-Blank (subst (Blank pid q) (sym mine) blank);
      generation =
          ap (λ (g : ℕ → ℕ). g pid)
            (queued.generations ∙ place-generations kmalloc now pid q bumped)
          ∙ update_self ps.slot_generation pid _;
      opened = (ipc_queue pid w.ipc below).0;
      queue = (ipc_queue pid w.ipc below).1;
      ports = (ipc_ports pid w.ipc).0;
      channels = (ipc_ports pid w.ipc).1;
      intents = refl;
      broker = refl;
      net = refl;
      scheduler = refl;
    }

-- With a valid initialized capability table in which the lowest free pid owns nothing and no IPC
-- capability is for it, parameters that pass and memory for a stack, `process_create` succeeds with that
-- pid: its slot's generation is counted up; the process is ready, has registers to start with exactly
-- if it is a kernel or user process with an entry point and not the kernel process, and its entry has
-- the parameters' parent, type and priority, and no descriptor in use, address space, child, boost or
-- exit code. It holds full rights over itself unless every slot of the table was in use, and, if it is
-- quantum aware and the pool is on, those on the qubit pool unless every slot is in use then; it owns no
-- other capability, and no IPC capability is for it. Its message queue is open, and empty if it was shut
-- before. Ports, channels, intents, jobs, connections and the scheduler's statics are as they were.
pub create-Born :
    (kmalloc : ℕ → ℕ) (now : ℕ) (pool_on : Bool) (pid : ℕ) (q : Params) (w : World)
    → CanCreate kmalloc pid q w.processes
    → IsValid w.caps
    → w.caps.initialized ≡ true
    → ((j : ℕ) → is_owned_by pid (w.caps.table j) ≡ false)
    → ((j : ℕ) → is_ipc_to pid (w.caps.table j) ≡ false)
    → (w' : World) × (process_create kmalloc now pool_on (some q) w ≡ (success, some pid, w'))
      × Born pid q pool_on w w'
create-Born kmalloc now pool_on pid q w c v on none_owned none_inbound = (
  settled kmalloc now pool_on pid q w,
  create-settled kmalloc now pool_on pid q w c,
  settled-Born kmalloc now pool_on pid q w v on none_owned none_inbound c.passes c.free,
)

-- The lowest pid in use that is not current, destroyed, is the next to be given out.
freed_is_next :
    (pid : ℕ) (ps qs : Processes)
    → pid < max_processes
    → Bystanders pid ps qs
    → (qs.table pid).state ≡ unused
    → ((k : ℕ) → k < pid → is_unused (ps.table k).state ≡ false)
    → find_free_pid qs ≡ some pid
unfolding find_free_pid
freed_is_next pid ps qs below others free taken =
    find_first-at max_processes 0 (λ i. is_unused (qs.table i).state) pid (ap is_unused free)
      (omega arith) (omega (arith, below))
      (λ k lo h. ap is_unused (others.states k (λ e. omega (arith, e, h))) ∙ taken k h)

-- What the process `pid` of `w'` has of the one of `w` that was destroyed, and which left `gone`.
pub record Afresh (pid : ℕ) (q : Params) (pool_on : Bool) (w gone w' : World) : Type 0 where
  pub rights : Rights pid q pool_on gone.caps w'.caps
  pub intent : w'.intents pid ≡ empty_manifest
  pub entry : Blank pid q (w'.processes.table pid)
  pub generation : w'.processes.slot_generation pid ≡ (w.processes.slot_generation pid + 1) % 2 ^ 32
  pub queue : w'.ipc.process_queues pid ≡ fresh_queue open_
  pub sockets : (i : ℕ) → i < udp_sock_max → is_udp_of pid (w'.net.udp_socks i) ≡ false
  pub client : is_client_of pid w'.net.tcb ≡ true → w'.net.tcb.abort_req ≡ true
  pub servers :
      (i : ℕ)
      → i < tcp_max_listeners
      → is_server_of pid (w'.net.tcb_srv i) ≡ true
      → (w'.net.tcb_srv i).abort_req ≡ true
  pub jobs : (i : ℕ) → i < max_jobs → Swept pid (w.broker.jobs i) (w'.broker.jobs i)
  pub holder : pid ≢ 0 → w'.scheduler.com2_holder_pid ≢ pid
  pub reader : pid ≢ 0 → w'.scheduler.cons_reader_pid ≢ pid
  pub ports :
      Distinct w.ipc.ports
      → w.ipc.queue_initialized pid ≡ true
      → current_pid w.processes.current ≡ kernel_process_id
      → (i : ℕ) → i < max_ports
      → is_due pid (w'.ipc.ports i) ≡ false
  pub channels : w'.ipc.channels ≡ w.ipc.channels

Born-Afresh :
    (pid : ℕ) (q : Params) (pool_on : Bool) (w gone w' : World)
    → Gone pid w gone
    → gone.processes.slot_generation ≡ w.processes.slot_generation
    → Born pid q pool_on gone w'
    → Afresh pid q pool_on w gone w'
Born-Afresh pid q pool_on w gone w' left same born = record {
  rights = born.rights;
  intent = ap (λ (t : Intents). t pid) born.intents ∙ left.intent;
  entry = born.entry;
  generation = born.generation ∙ ap (λ (g : ℕ → ℕ). (g pid + 1) % 2 ^ 32) same;
  queue = born.queue left.queue;
  sockets =
      λ i small. ap (λ (n : Net). is_udp_of pid (n.udp_socks i)) born.net ∙ left.sockets i small;
  client =
      subst (λ (n : Net). is_client_of pid n.tcb ≡ true → n.tcb.abort_req ≡ true) (sym born.net)
        left.client;
  servers = λ i small.
      subst (λ (n : Net). is_server_of pid (n.tcb_srv i) ≡ true → (n.tcb_srv i).abort_req ≡ true)
        (sym born.net) (left.servers i small);
  jobs = λ i small.
      subst (λ (b : Broker). Swept pid (w.broker.jobs i) (b.jobs i)) (sym born.broker)
        (left.jobs i small);
  holder =
      λ nz e. left.holder nz (ap (λ (s : Scheduler). s.com2_holder_pid) (sym born.scheduler) ∙ e);
  reader =
      λ nz e. left.reader nz (ap (λ (s : Scheduler). s.cons_reader_pid) (sym born.scheduler) ∙ e);
  ports = λ d open_ by_kernel i small.
      ap (λ (f : ℕ → Port). is_due pid (f i)) born.ports ∙ left.ports d open_ by_kernel i small;
  channels = born.channels ∙ left.channels;
}

-- When a process that is not the current one is destroyed, and every lower pid is in use, a creation
-- with parameters that pass whatever the table holds and memory for a stack gives out its pid again.
-- The new process owns its birthrights alone, and has these unless every slot of the capability table is
-- in use; no IPC capability is for it; no manifest is bound for it; its entry has no descriptor in use,
-- address space, child, boost or exit code; its message queue is empty; it has no socket, no registration
-- as holder or reader, and no connection that is not told to abort; of the jobs of the old process only
-- running ones are left, orphaned; and the slot's generation is one more, on 32 bits. It has no open port
-- of the old process if the kernel ran the destruction, with an open queue and distinct numbers of the
-- open ports. The channels, whose ends are pids, are as they were.
pub reborn :
    (kmalloc : ℕ → ℕ) (now later : ℕ) (pool_on : Bool) (pid : ℕ) (q : Params) (w : World)
    → pid < max_processes
    → IsValid w.caps
    → w.caps.initialized ≡ true
    → w.processes.initialized ≡ true
    → w.processes.fail_next_create ≡ false
    → process_is_valid pid w.processes ≡ true
    → points_to w.processes.current pid ≡ false
    → ((k : ℕ) → k < pid → is_unused (w.processes.table k).state ≡ false)
    → ((ps : Processes) → validate_process_params (some q) ps ≡ success)
    → (stack_memory kmalloc pid q == 0) ≡ false
    → (gone : World) × (w' : World) × (process_destroy now pid w ≡ some (success, gone))
      × (process_create kmalloc later pool_on (some q) gone ≡ (success, some pid, w'))
      × Afresh pid q pool_on w gone w'
reborn kmalloc now later pool_on pid q w below v caps_on on calm valid idle taken passes memory =
    let (gone, done, left, others) = destroy-Gone now pid w below v on valid idle in
    let can : CanCreate kmalloc pid q gone.processes = record {
      on = others.initialized ∙ on;
      calm = others.armed ∙ calm;
      passes = passes gone.processes;
      free = freed_is_next pid w.processes gone.processes below others left.slot taken;
      memory = memory;
    } in
    let (w', made, born) =
      create-Born kmalloc later pool_on pid q gone can left.authority.valid
        (left.authority.on ∙ caps_on) left.authority.none_owned left.authority.none_inbound in
    (gone, w', done, made, Born-Afresh pid q pool_on w gone w' left others.generations born)
