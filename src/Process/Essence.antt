-- ===== src/Process/Essence.antt =====
-- What the calls of process.c leave of an entry, apart from its links in the ready queue and its times.
use quantum_os.Prelude.{
  ℕ, ◌+◌, ◌%◌, ◌^◌, ◌≡◌, ◌≢◌, refl, ap, ◌∙◌, sym, Bool, true, false, not, Option, none, some, ltb,
  leb, ◌&&◌, ◌==◌, if◌then◌else◌, update_self, update_ne, Bool-cases, inl, inr, arith,
}
use quantum_os.Manifest.Table.{max_processes}
use quantum_os.Process.{
  process_magic, Process, Processes, ProcessState, is_ready, is_unused, process_is_valid,
}
use quantum_os.Process.Queue.{
  store, store_at, charged, add_to_ready_queue, lead_past, bypass, remove_from_ready_queue,
  process_set_state, process_switch_to, priority_kernel,
}

-- The entry without its links and its times.
abbrev pub essence : Process → Process
essence p = record p {
  next = none;
  prev = none;
  runtime_total = 0;
  runtime_last = 0;
  last_scheduled = 0;
  sched_picks = 0;
}

abbrev Keeps : (Process → Process) → Type 0
Keeps f = (p : Process) → essence (f p) ≡ essence p

-- The same essences and the same current process.
pub record Alike (ps qs : Processes) : Type 0 where
  pub entries : (k : ℕ) → essence (ps.table k) ≡ essence (qs.table k)
  pub current : ps.current ≡ qs.current
  pub initialized : ps.initialized ≡ qs.initialized
  pub generations : ps.slot_generation ≡ qs.slot_generation
  pub armed : ps.fail_next_create ≡ qs.fail_next_create

pub Alike-refl : (ps : Processes) → Alike ps ps
Alike-refl ps = record {
  entries = λ k. refl;
  current = refl;
  initialized = refl;
  generations = refl;
  armed = refl;
}

pub Alike-trans : {ps qs rs : Processes} → Alike ps qs → Alike qs rs → Alike ps rs
Alike-trans a b = record {
  entries = λ k. a.entries k ∙ b.entries k;
  current = a.current ∙ b.current;
  initialized = a.initialized ∙ b.initialized;
  generations = a.generations ∙ b.generations;
  armed = a.armed ∙ b.armed;
}

pub store-other :
    (pid : ℕ) (f : Process → Process) (ps : Processes) (k : ℕ)
    → pid ≢ k
    → (store pid f ps).table k ≡ ps.table k
store-other pid f ps k h = update_ne ps.table pid k (f (ps.table pid)) h

pub store_self :
    (pid : ℕ) (f : Process → Process) (ps : Processes)
    → (store pid f ps).table pid ≡ f (ps.table pid)
store_self pid f ps = update_self ps.table pid (f (ps.table pid))

pub store-Alike :
    (pid : ℕ) (f : Process → Process) (ps : Processes) → Keeps f → Alike (store pid f ps) ps
store-Alike pid f ps keeps = record {
  entries = λ k. elim (Bool-cases (pid == k)) [
    | inl same ↦
        let e : pid ≡ k = ground (arith, same) in
        rw (← e) (ap essence (store_self pid f ps) ∙ keeps (ps.table pid))
    | inr other ↦ ap essence (store-other pid f ps k (ground (arith, other)))
  ];
  current = refl;
  initialized = refl;
  generations = refl;
  armed = refl;
}

pub store_at-Alike :
    (o : Option ℕ) (f : Process → Process) (ps : Processes) → Keeps f → Alike (store_at o f ps) ps
store_at-Alike none f ps keeps = Alike-refl ps
store_at-Alike (some pid) f ps keeps = store-Alike pid f ps keeps

abbrev Respects : (Process → Process) → Type 0
Respects f = (p q : Process) → essence p ≡ essence q → essence (f p) ≡ essence (f q)

-- The same store to tables that are alike.
pub store_both :
    (pid : ℕ) (f : Process → Process) {ps qs : Processes}
    → Respects f
    → Alike ps qs
    → Alike (store pid f ps) (store pid f qs)
store_both pid f {ps} {qs} respects a = record {
  entries = λ k. elim (Bool-cases (pid == k)) [
    | inl same ↦
        let e : pid ≡ k = ground (arith, same) in
        rw (← e) (
          ap essence (store_self pid f ps)
          ∙ respects (ps.table pid) (qs.table pid) (a.entries pid)
          ∙ sym (ap essence (store_self pid f qs)))
    | inr other ↦
        let ne : pid ≢ k = ground (arith, other) in
        ap essence (store-other pid f ps k ne)
        ∙ a.entries k
        ∙ sym (ap essence (store-other pid f qs k ne))
  ];
  current = a.current;
  initialized = a.initialized;
  generations = a.generations;
  armed = a.armed;
}

pub add-Alike : (pid : ℕ) (ps : Processes) → Alike (add_to_ready_queue pid ps) ps
unfolding add_to_ready_queue
add-Alike pid ps = elim (Bool-cases (ltb priority_kernel (ps.table pid).priority)) [
  | inl above ↦ rw above (Alike-refl ps)
  | inr fits ↦
      let head = ps.ready_queue (ps.table pid).priority in
      let first = store-Alike pid (λ p. record p { next = head; prev = none }) ps (λ p. refl) in
      let both =
        Alike-trans
          (store_at-Alike head (λ q. record q { prev = some pid })
            (store pid (λ p. record p { next = head; prev = none }) ps) (λ p. refl))
          first in
      rw fits (record {
        entries = both.entries;
        current = both.current;
        initialized = both.initialized;
        generations = both.generations;
        armed = both.armed;
      })
]

lead_past-Alike : (o after : Option ℕ) (ps : Processes) → Alike (lead_past o after ps) ps
lead_past-Alike none after ps = Alike-refl ps
lead_past-Alike (some k) after ps = record {
  entries = λ j. refl;
  current = refl;
  initialized = refl;
  generations = refl;
  armed = refl;
}

bypass-Alike : (o : Option ℕ) (pid : ℕ) (ps : Processes) → Alike (bypass o pid ps) ps
bypass-Alike (some before) pid ps =
    store-Alike before (λ q. record q { next = (ps.table pid).next }) ps (λ p. refl)
bypass-Alike none pid ps = lead_past-Alike _ (ps.table pid).next ps

pub remove-Alike : (pid : ℕ) (ps : Processes) → Alike (remove_from_ready_queue pid ps) ps
unfolding remove_from_ready_queue
remove-Alike pid ps =
    let bypassed = bypass (ps.table pid).prev pid ps in
    let p = bypassed.table pid in
    let last = store_at p.next (λ q. record q { prev = p.prev }) bypassed in
    Alike-trans (store-Alike pid (λ q. record q { next = none; prev = none }) last (λ p. refl)) (
      Alike-trans (store_at-Alike p.next (λ q. record q { prev = p.prev }) bypassed (λ p. refl))
        (bypass-Alike (ps.table pid).prev pid ps))

left-Alike :
    (b : Bool) (pid : ℕ) (ps : Processes)
    → Alike (if b then remove_from_ready_queue pid ps else ps) ps
left-Alike true pid ps = remove-Alike pid ps
left-Alike false pid ps = Alike-refl ps

entered-Alike :
    (b : Bool) (pid : ℕ) (ps : Processes) → Alike (if b then add_to_ready_queue pid ps else ps) ps
entered-Alike true pid ps = add-Alike pid ps
entered-Alike false pid ps = Alike-refl ps

-- `process_set_state` stores the state and moves links, no more.
pub set_state-Alike :
    (pid : ℕ) (new : ProcessState) (ps : Processes)
    → process_is_valid pid ps ≡ true
    → Alike (process_set_state pid new ps).1 (store pid (λ p. record p { state = new }) ps)
unfolding process_set_state
set_state-Alike pid new ps valid = rw valid (
    let left = if is_ready (ps.table pid).state then remove_from_ready_queue pid ps else ps in
    Alike-trans (entered-Alike (is_ready new) pid (store pid (λ p. record p { state = new }) left))
      (store_both pid (λ p. record p { state = new })
        (λ p q e. ap (λ (r : Process). record r { state = new }) e)
        (left-Alike (is_ready (ps.table pid).state) pid ps)))

-- `process_switch_to` makes the process current and writes times, no more.
pub switch_to-alike :
    (now pid : ℕ) (ps : Processes)
    → process_is_valid pid ps ≡ true
    → Alike (process_switch_to now pid ps).1 (record ps { current = some pid })
unfolding process_switch_to
switch_to-alike now pid ps valid = rw valid (
    let counted = record ps {
      current = some pid;
      statistics = record (ps.statistics) {
        context_switches = (ps.statistics.context_switches + 1) % 2 ^ 64;
      };
    } in
    let whole =
      Alike-trans
        (store-Alike pid
          (λ p. record p { last_scheduled = now; sched_picks = (p.sched_picks + 1) % 2 ^ 64 })
          (store_at ps.current (charged now) counted) (λ p. refl))
        (store_at-Alike ps.current (charged now) counted (λ p. refl)) in
    record {
      entries = whole.entries;
      current = whole.current;
      initialized = whole.initialized;
      generations = whole.generations;
      armed = whole.armed;
    })

-- What `process_is_valid` reads of the entry.
abbrev pub valid_entry : ℕ → Process → Bool
valid_entry k p =
    if leb max_processes k then false else (p.magic == process_magic && not (is_unused p.state))

pub valid_entry_lem : (k : ℕ) (ps : Processes) → process_is_valid k ps ≡ valid_entry k (ps.table k)
unfolding process_is_valid
valid_entry_lem k ps = refl

-- Entries of one essence are valid together.
pub valid-alike :
    (k : ℕ) (ps qs : Processes)
    → essence (ps.table k) ≡ essence (qs.table k)
    → process_is_valid k ps ≡ process_is_valid k qs
valid-alike k ps qs e = valid_entry_lem k ps ∙ ap (valid_entry k) e ∙ sym (valid_entry_lem k qs)

-- What a store to one entry does not change, read of any entry.
pub store-reads {ℓ} :
    {X : Type ℓ} (read : Process → X) (pid : ℕ) (f : Process → Process) (ps : Processes) (k : ℕ)
    → ((p : Process) → read (f p) ≡ read p)
    → read ((store pid f ps).table k) ≡ read (ps.table k)
store-reads read pid f ps k same = elim (Bool-cases (pid == k)) [
  | inl here ↦
      let e : pid ≡ k = ground (arith, here) in
      rw (← e) (ap read (store_self pid f ps) ∙ same (ps.table pid))
  | inr other ↦ ap read (store-other pid f ps k (ground (arith, other)))
]
