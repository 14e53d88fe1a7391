-- ===== src/Lifecycle/Entry.antt =====
-- The entry that `process_create` makes, and what its later steps leave of it.
use quantum_os.Prelude.{
  ℕ, ◌+◌, ◌%◌, ◌^◌, Bool, not, ◌&&◌, ◌||◌, Option, none, some, leb, ◌==◌, ◌≡◌, ◌≢◌, refl, inl, inr,
  ◌⊎◌, false, arith, ◌∙◌, sym, Bool-cases, update, update_self,
}
use quantum_os.Ipc.State.{ipc_process_init}
use quantum_os.Manifest.Table.{max_processes}
use quantum_os.Process.{Process, Processes, process_is_valid, kernel_process_id}
use quantum_os.Process.ProcessState.{ready}
use quantum_os.Lifecycle.{World}
use quantum_os.Lifecycle.Family.{process_add_child, with_child}
use quantum_os.Process.Essence.{essence, store-other, store-reads}
use quantum_os.Lifecycle.Create.{
  Params, place, grant_root, grant_pool, enter, with_root, with_pool, entry_at_birth,
  init_process_pcb, starts,
}

-- The world in which the new process enters the ready queue.
abbrev pub settled : (ℕ → ℕ) → ℕ → Bool → ℕ → Params → World → World
settled kmalloc now pool_on pid q w =
    let ps = w.processes in
    let bumped = record ps {
      slot_generation = update ps.slot_generation pid ((ps.slot_generation pid + 1) % 2 ^ 32);
    } in
    let opened = record w {
      processes = place kmalloc now pid q bumped;
      ipc = (ipc_process_init pid w.ipc).1;
    } in
    enter pid (grant_pool now pid (q.is_quantum_aware && pool_on) (grant_root now pid opened))

-- A reading of entries that the records of capabilities do not change.
module _ {ℓ} {X : Type ℓ} (read : Process → X)
    (root : (o : Option ℕ) (p : Process) → read (with_root o p) ≡ read p)
    (pool : (o : Option ℕ) (p : Process) → read (with_pool o p) ≡ read p) where
  pub root-reads :
      (now pid k : ℕ) (w : World)
      → read ((grant_root now pid w).processes.table k) ≡ read (w.processes.table k)
  unfolding grant_root
  root-reads now pid k w = store-reads read pid (with_root _) w.processes k (root _)

  pub pool-reads :
      (now pid : ℕ) (wanted : Bool) (k : ℕ) (w : World)
      → read ((grant_pool now pid wanted w).processes.table k) ≡ read (w.processes.table k)
  unfolding grant_pool
  pool-reads now pid wanted k w = store-reads read pid (with_pool _) w.processes k (pool _)

-- The new entry is not among the entries that its parent's children are written to.
pub place-entry :
    (kmalloc : ℕ → ℕ) (now pid : ℕ) (q : Params) (ps : Processes)
    → (q.parent_pid ≡ kernel_process_id) ⊎ (q.parent_pid ≢ pid)
    → (place kmalloc now pid q ps).table pid ≡ entry_at_birth kmalloc now ps.generation_next pid q
unfolding place process_add_child
place-entry kmalloc now pid q ps parent =
    let e = entry_at_birth kmalloc now ps.generation_next pid q in
    let placed = record ps {
      table = update ps.table pid e;
      generation_next = (ps.generation_next + 1) % 2 ^ 32;
    } in
    let self = update_self ps.table pid e in
    elim (Bool-cases (not (q.parent_pid == kernel_process_id))) [
      | inr of_kernel ↦ rw of_kernel self
      | inl child ↦ elim parent [
        | inl kernel ↦ absurd (ground (arith, child, kernel))
        | inr other ↦
            let kept = store-other q.parent_pid (with_child pid) placed pid other in
            let bad =
              not (process_is_valid q.parent_pid placed) || not (process_is_valid pid placed) in
            elim (Bool-cases bad) [
              | inl refused ↦ rw (child, refused) self
              | inr fine ↦
                  elim (Bool-cases (leb max_processes (placed.table q.parent_pid).child_count)) [
                    | inl full ↦ rw (child, fine, full) self
                    | inr room ↦ rw (child, fine, room) (kept ∙ self)
                  ]
            ]
      ]
    ]

-- What a new entry holds beside its rights and its registers: nothing of an earlier one.
pub record Blank (pid : ℕ) (q : Params) (p : Process) : Type 0 where
  pub no_files : (i : ℕ) → (p.fds i).used ≡ false
  pub no_space : p.virtual_address_space ≡ 0
  pub kernel_map : p.cr3 ≡ 0
  pub no_boost : p.io_boost ≡ false
  pub no_children : p.child_count ≡ 0
  pub not_exited : p.has_exited ≡ false
  pub exit_code : p.exit_code ≡ 0
  pub parent : p.parent_pid ≡ q.parent_pid
  pub same_type : p.type ≡ q.type
  pub priority : p.priority ≡ q.priority
  pub runnable : p.context_valid ≡ starts pid q

pub birth-Blank :
    (kmalloc : ℕ → ℕ) (now generation pid : ℕ) (q : Params)
    → Blank pid q (entry_at_birth kmalloc now generation pid q)
unfolding entry_at_birth init_process_pcb
birth-Blank kmalloc now generation pid q = elim (Bool-cases (starts pid q)) [
  | inl yes_ ↦ rw yes_ (record {
    no_files = λ i. refl;
    no_space = refl;
    kernel_map = refl;
    no_boost = refl;
    no_children = refl;
    not_exited = refl;
    exit_code = refl;
    parent = refl;
    same_type = refl;
    priority = refl;
    runnable = sym yes_;
  })
  | inr no_ ↦ rw no_ (record {
    no_files = λ i. refl;
    no_space = refl;
    kernel_map = refl;
    no_boost = refl;
    no_children = refl;
    not_exited = refl;
    exit_code = refl;
    parent = refl;
    same_type = refl;
    priority = refl;
    runnable = sym no_;
  })
]

-- The entry apart from its state and the fields that the two grants write.
abbrev pub ungranted : Process → Process
ungranted p = record (essence p) {
  state = ready;
  capability_root = 0;
  capability_count = 0;
  quantum_cap = 0;
}

pub ungranted-Blank :
    {pid : ℕ} {q : Params} {p : Process} → Blank pid q (ungranted p) → Blank pid q p
ungranted-Blank b = record {
  no_files = b.no_files;
  no_space = b.no_space;
  kernel_map = b.kernel_map;
  no_boost = b.no_boost;
  no_children = b.no_children;
  not_exited = b.not_exited;
  exit_code = b.exit_code;
  parent = b.parent;
  same_type = b.same_type;
  priority = b.priority;
  runnable = b.runnable;
}

pub Blank-ungranted :
    {pid : ℕ} {q : Params} {p : Process} → Blank pid q p → Blank pid q (ungranted p)
Blank-ungranted b = record {
  no_files = b.no_files;
  no_space = b.no_space;
  kernel_map = b.kernel_map;
  no_boost = b.no_boost;
  no_children = b.no_children;
  not_exited = b.not_exited;
  exit_code = b.exit_code;
  parent = b.parent;
  same_type = b.same_type;
  priority = b.priority;
  runnable = b.runnable;
}

pub with_root-ungranted : (o : Option ℕ) (p : Process) → ungranted (with_root o p) ≡ ungranted p
with_root-ungranted none p = refl
with_root-ungranted (some id) p = refl

pub with_pool-ungranted : (o : Option ℕ) (p : Process) → ungranted (with_pool o p) ≡ ungranted p
with_pool-ungranted none p = refl
with_pool-ungranted (some id) p = refl

add_child-generations :
    (parent pid : ℕ) (ps : Processes)
    → (process_add_child parent pid ps).1.slot_generation ≡ ps.slot_generation
unfolding process_add_child
add_child-generations parent pid ps = ground arith

pub place-generations :
    (kmalloc : ℕ → ℕ) (now pid : ℕ) (q : Params) (ps : Processes)
    → (place kmalloc now pid q ps).slot_generation ≡ ps.slot_generation
unfolding place
place-generations kmalloc now pid q ps =
    let e = entry_at_birth kmalloc now ps.generation_next pid q in
    let placed = record ps {
      table = update ps.table pid e;
      generation_next = (ps.generation_next + 1) % 2 ^ 32;
    } in
    elim (Bool-cases (not (q.parent_pid == kernel_process_id))) [
      | inl child ↦ rw child (add_child-generations q.parent_pid pid placed)
      | inr orphan ↦ rw orphan refl
    ]
