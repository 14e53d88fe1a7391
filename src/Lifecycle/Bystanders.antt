-- ===== src/Lifecycle/Bystanders.antt =====
-- What `process_destroy` does to the process table: the entry of the process is stripped, and of the other
-- entries only the links in the ready queue, the times, the boost and the children can change.
use quantum_os.Prelude.{
  ℕ, Bool, true, false, not, ◌&&◌, ◌==◌, if◌then◌else◌, ◌≡◌, ◌≢◌, [], ◌∷◌, ◌++◌, refl, inl, inr, ap,
  ap₂, List, ◌∙◌, sym, Bool-cases,
}
use quantum_os.Capability.State.{System}
use quantum_os.Net.{net_udp_cleanup}
use quantum_os.Process.{Process, Processes, process_is_valid}
use quantum_os.Process.Queue.{store, remove_from_ready_queue}
use quantum_os.Process.Essence.{store-other, store_self, valid_entry, valid_entry_lem}
use quantum_os.Lifecycle.{World}
use quantum_os.Lifecycle.Destroy.{
  leave_io, fds_closed, drop_claims, capless, free_space, spaceless, free_stack, stackless, orphan,
  discount, erase, erased, with_caps,
}
use quantum_os.Lifecycle.Tags.{
  SameTags, bare, udp-tags, tcp-tags, remove-tags, orphan-tags, discount-tags,
}

-- The entry of `pid` is as `f` makes it, and every other entry as it was, with the same current process.
record Turned (pid : ℕ) (f : Process → Process) (ps qs : Processes) : Type 0 where
  own : bare (qs.table pid) ≡ f (bare (ps.table pid))
  others : (k : ℕ) → pid ≢ k → bare (qs.table k) ≡ bare (ps.table k)
  current : qs.current ≡ ps.current
  initialized : qs.initialized ≡ ps.initialized
  generations : qs.slot_generation ≡ ps.slot_generation
  armed : qs.fail_next_create ≡ ps.fail_next_create

module _ {pid : ℕ} {ps qs rs : Processes} where
  then_Turned :
      {f g : Process → Process}
      → Turned pid f ps qs
      → Turned pid g qs rs
      → Turned pid (λ p. g (f p)) ps rs
  then_Turned {f} {g} a b = record {
    own = b.own ∙ ap g a.own;
    others = λ k ne. b.others k ne ∙ a.others k ne;
    current = b.current ∙ a.current;
    initialized = b.initialized ∙ a.initialized;
    generations = b.generations ∙ a.generations;
    armed = b.armed ∙ a.armed;
  }

  then_tags : {f : Process → Process} → Turned pid f ps qs → SameTags rs qs → Turned pid f ps rs
  then_tags a b = record {
    own = b.tags pid ∙ a.own;
    others = λ k ne. b.tags k ∙ a.others k ne;
    current = b.current ∙ a.current;
    initialized = b.initialized ∙ a.initialized;
    generations = b.generations ∙ a.generations;
    armed = b.armed ∙ a.armed;
  }

tags-Turned : {pid : ℕ} {ps qs : Processes} → SameTags qs ps → Turned pid (λ p. p) ps qs
tags-Turned {pid} a = record {
  own = a.tags pid;
  others = λ k ne. a.tags k;
  current = a.current;
  initialized = a.initialized;
  generations = a.generations;
  armed = a.armed;
}

store-Turned :
    (pid : ℕ) (f : Process → Process) (ps : Processes)
    → ((p : Process) → bare (f p) ≡ f (bare p))
    → Turned pid f ps (store pid f ps)
store-Turned pid f ps plain = record {
  own = ap bare (store_self pid f ps) ∙ plain (ps.table pid);
  others = λ k ne. ap bare (store-other pid f ps k ne);
  current = refl;
  initialized = refl;
  generations = refl;
  armed = refl;
}

-- A store that is made where the entry passes a test.
store_if-Turned :
    (pid : ℕ) (test : Process → Bool) (f : Process → Process) (ps : Processes)
    → ((p : Process) → bare (f p) ≡ f (bare p))
    → ((p : Process) → test (bare p) ≡ test p)
    → Turned pid
        (λ p. if test p then f p else p)
        ps
        (if test (ps.table pid) then store pid f ps else ps)
store_if-Turned pid test f ps plain blind =
    let p = ps.table pid in
    elim (Bool-cases (test p)) [
      | inl passes ↦
          let a = store-Turned pid f ps plain in
          rw passes (record {
            own =
                a.own
                ∙ sym (ap (λ (b : Bool). if b then f (bare p) else bare p) (blind p ∙ passes));
            others = a.others;
            current = refl;
            initialized = refl;
            generations = refl;
            armed = refl;
          })
      | inr fails ↦ rw fails (record {
        own = sym (ap (λ (b : Bool). if b then f (bare p) else bare p) (blind p ∙ fails));
        others = λ k ne. refl;
        current = refl;
        initialized = refl;
        generations = refl;
        armed = refl;
      })
    ]

abbrev pub has_space : Process → Bool
has_space p = not (p.virtual_address_space == 0)

abbrev pub has_stack : Process → Bool
has_stack p = p.owns_kernel_stack && not (p.stack_bottom == 0)

-- What becomes of the entry of the process.
abbrev pub without_space : Process → Process
without_space p = if has_space p then spaceless p else p

abbrev pub without_stack : Process → Process
without_stack p = if has_stack p then stackless p else p

-- Every entry but the one erased is bare as it was, so it keeps its validity and its state, and the
-- current process stays.
pub record Bystanders (pid : ℕ) (ps qs : Processes) : Type 0 where
  pub entries : (k : ℕ) → pid ≢ k → bare (qs.table k) ≡ bare (ps.table k)
  pub states : (k : ℕ) → pid ≢ k → (qs.table k).state ≡ (ps.table k).state
  pub valid : (k : ℕ) → pid ≢ k → process_is_valid k qs ≡ process_is_valid k ps
  pub current : qs.current ≡ ps.current
  pub initialized : qs.initialized ≡ ps.initialized
  pub generations : qs.slot_generation ≡ ps.slot_generation
  pub armed : qs.fail_next_create ≡ ps.fail_next_create

Turned-Bystanders :
    {pid : ℕ} {f : Process → Process} {ps qs : Processes}
    → Turned pid f ps qs
    → Bystanders pid ps qs
Turned-Bystanders {pid} {f} {ps} {qs} a = record {
  entries = a.others;
  states = λ k ne. ap (λ (p : Process). p.state) (a.others k ne);
  valid = λ k ne.
      valid_entry_lem k qs ∙ ap (valid_entry k) (a.others k ne) ∙ sym (valid_entry_lem k ps);
  current = a.current;
  initialized = a.initialized;
  generations = a.generations;
  armed = a.armed;
}

leave_io-Turned :
    (pid : ℕ) (w : World) → Turned pid fds_closed w.processes (leave_io pid w).processes
unfolding leave_io
leave_io-Turned pid w =
    let removed = remove_from_ready_queue pid w.processes in
    let ps = store pid fds_closed removed in
    let (ps1, n1) = net_udp_cleanup pid w.scheduler ps w.net in
    let closed =
      then_Turned (tags-Turned (remove-tags pid w.processes))
        (store-Turned pid fds_closed removed (λ p. refl)) in
    then_tags (then_tags closed (udp-tags pid w.scheduler ps w.net))
      (tcp-tags pid w.scheduler ps1 n1)

-- The world with the address space and the stack given up.
abbrev pub unmapped : ℕ → World → System → World
unmapped pid w s = free_space pid (drop_claims pid (record (leave_io pid w) { caps = s }))

unmapped-Turned :
    (pid : ℕ) (w : World) (s : System)
    → Turned pid
        (λ p. without_space (capless (fds_closed p)))
        w.processes
        (unmapped pid w s).processes
unfolding free_space drop_claims
unmapped-Turned pid w s =
    let left = leave_io pid w in
    then_Turned
      (then_Turned (leave_io-Turned pid w) (store-Turned pid capless left.processes (λ p. refl)))
      (store_if-Turned pid has_space spaceless (store pid capless left.processes) (λ p. refl)
        (λ p. refl))

abbrev pub stripped : Process → Process
stripped p = erased (without_stack (without_space (capless (fds_closed p))))

with_caps-Turned :
    (pid : ℕ) (w : World) (s : System)
    → Turned pid stripped w.processes (with_caps pid (leave_io pid w) s).processes
unfolding erase free_stack
with_caps-Turned pid w s =
    let freed_ = free_stack pid (unmapped pid w s) in
    let orphaned = orphan pid freed_.processes in
    then_Turned
      (then_tags
        (then_tags
          (then_Turned (unmapped-Turned pid w s) (
            store_if-Turned pid has_stack stackless (unmapped pid w s).processes (λ p. refl)
              (λ p. refl)))
          (orphan-tags pid freed_.processes))
        (discount-tags pid orphaned))
      (store-Turned pid erased (discount pid orphaned) (λ p. refl))

pub with_caps-Bystanders :
    (pid : ℕ) (w : World) (s : System)
    → Bystanders pid w.processes (with_caps pid (leave_io pid w) s).processes
with_caps-Bystanders pid w s = Turned-Bystanders (with_caps-Turned pid w s)

-- The bare entry of the process after its tear-down.
pub with_caps-stripped :
    (pid : ℕ) (w : World) (s : System)
    → bare ((with_caps pid (leave_io pid w) s).processes.table pid)
      ≡ stripped (bare (w.processes.table pid))
with_caps-stripped pid w s = (with_caps-Turned pid w s).own

-- What an address that may have to be given back adds to the list.
abbrev pub given_back : Bool → ℕ → List ℕ
given_back b x = if b then x ∷ [] else []

listed : (b : Bool) (x : ℕ) (l : List ℕ) → (if b then x ∷ l else l) ≡ given_back b x ++ l
listed true x l = refl
listed false x l = refl

spaceless-stack :
    (p : Process)
    → (has_stack (without_space p) ≡ has_stack p)
      × ((without_space p).stack_bottom ≡ p.stack_bottom)
spaceless-stack p = elim (Bool-cases (has_space p)) [
  | inl has ↦ rw has (refl, refl)
  | inr none_ ↦ rw none_ (refl, refl)
]

unmapped-freed :
    (pid : ℕ) (w : World) (s : System)
    → let p = w.processes.table pid in
      (unmapped pid w s).freed ≡ given_back (has_space p) p.virtual_address_space ++ w.freed
unfolding free_space drop_claims leave_io
unmapped-freed pid w s =
    let left = leave_io pid w in
    let before =
      (then_Turned (leave_io-Turned pid w)
        (store-Turned pid capless left.processes (λ p. refl))).own in
    let q = (store pid capless left.processes).table pid in
    listed (has_space q) q.virtual_address_space w.freed
    ∙ ap₂ (λ b x. given_back b x ++ w.freed) (ap has_space before)
        (ap (λ (p : Process). p.virtual_address_space) before)

-- The addresses given back: the kernel stack and the address space, where it had them.
pub with_caps-freed :
    (pid : ℕ) (w : World) (s : System)
    → let p = w.processes.table pid in
      (with_caps pid (leave_io pid w) s).freed
      ≡ given_back (has_stack p) p.stack_bottom
        ++ (given_back (has_space p) p.virtual_address_space ++ w.freed)
unfolding erase free_stack
with_caps-freed pid w s =
    let u = unmapped pid w s in
    let q = u.processes.table pid in
    let own = (unmapped-Turned pid w s).own in
    let (has, bottom) = spaceless-stack (capless (fds_closed (bare (w.processes.table pid)))) in
    listed (has_stack q) q.stack_bottom u.freed
    ∙ ap₂ (λ b x. given_back b x ++ u.freed) (ap has_stack own ∙ has)
        (ap (λ (p : Process). p.stack_bottom) own ∙ bottom)
    ∙ ap
        (λ l.
          given_back (has_stack (w.processes.table pid)) (w.processes.table pid).stack_bottom ++ l)
        (unmapped-freed pid w s)
