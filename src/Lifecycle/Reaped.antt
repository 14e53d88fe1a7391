-- ===== src/Lifecycle/Reaped.antt =====
-- What a pass of the reaper leaves.
use quantum_os.Prelude.{
  ℕ, zero, suc, ◌+◌, ◌<◌, Bool, true, false, not, ◌&&◌, Option, some, leb, ◌==◌, if◌then◌else◌, ◌≡◌,
  ◌≢◌, refl, inl, inr, arith, ap, ◌∙◌, sym, Bool-cases,
}
use quantum_os.Capability.Invariant.{IsValid}
use quantum_os.Manifest.Table.{max_processes}
use quantum_os.Process.{Processes, ProcessState, process_is_valid}
use quantum_os.Process.ProcessState.{unused}
use quantum_os.Process.Queue.{points_to}
use quantum_os.Lifecycle.{World}
use quantum_os.Lifecycle.Bystanders.{Bystanders}
use quantum_os.Lifecycle.Destroy.{
  is_terminated_state, is_reapable, reap_one, reap_from, process_reap,
}
use quantum_os.Lifecycle.Gone.{Gone, destroy-Gone}

-- A valid capability table, and a terminated entry is that of a valid process.
pub record CanReap (w : World) : Type 0 where
  pub caps : IsValid w.caps
  pub on : w.processes.initialized ≡ true
  pub sane :
      (k : ℕ)
      → k < max_processes
      → is_reapable k w.processes ≡ true
      → process_is_valid k w.processes ≡ true

abbrev pub state_at : World → ℕ → ProcessState
state_at w k = (w.processes.table k).state

abbrev reapable_state : Option ℕ → ℕ → ProcessState → Bool
reapable_state current k s = is_terminated_state s && not (points_to current k)

reapable_lem :
    (k : ℕ) (ps : Processes) → is_reapable k ps ≡ reapable_state ps.current k (ps.table k).state
unfolding is_reapable
reapable_lem k ps = refl

-- Whether an entry can be reaped is not changed for a bystander.
same_reapable :
    (k : ℕ) (ps qs : Processes)
    → qs.current ≡ ps.current
    → (qs.table k).state ≡ (ps.table k).state
    → is_reapable k qs ≡ is_reapable k ps
same_reapable k ps qs current state =
    reapable_lem k qs
    ∙ ap (λ o. reapable_state o k (qs.table k).state) current
    ∙ ap (reapable_state ps.current k) state
    ∙ sym (reapable_lem k ps)

-- One round: the entry at `pid` is freed if it is reapable, and no other state changes.
record Round (pid : ℕ) (w w' : World) : Type 0 where
  can : CanReap w'
  current : w'.processes.current ≡ w.processes.current
  states :
      (k : ℕ)
      → state_at w' k ≡ (if pid == k && is_reapable k w.processes then unused else state_at w k)

not_reapable_freed :
    (pid : ℕ) (ps : Processes) → (ps.table pid).state ≡ unused → is_reapable pid ps ≡ false
not_reapable_freed pid ps free = reapable_lem pid ps ∙ ap (reapable_state ps.current pid) free

freed-Round :
    (pid : ℕ) (w w' : World)
    → CanReap w
    → is_reapable pid w.processes ≡ true
    → Gone pid w w'
    → Bystanders pid w.processes w'.processes
    → Round pid w w'
freed-Round pid w w' c due gone others = record {
  can = record {
    caps = gone.authority.valid;
    on = others.initialized ∙ c.on;
    sane = λ k small again. elim (Bool-cases (pid == k)) [
      | inl same ↦
          let e : pid ≡ k = ground (arith, same) in
          absurd (ground (arith, rw (← e) at again, not_reapable_freed pid w'.processes gone.slot))
      | inr other ↦
          let ne : pid ≢ k = ground (arith, other) in
          let before =
            sym (same_reapable k w.processes w'.processes others.current (others.states k ne)) in
          others.valid k ne ∙ c.sane k small (before ∙ again)
    ];
  };
  current = others.current;
  states = λ k. elim (Bool-cases (pid == k)) [
    | inl same ↦
        let e : pid ≡ k = ground (arith, same) in
        let hit : (pid == k && is_reapable k w.processes) ≡ true =
          ground (arith, same, rw e at due) in
        rw hit (rw e at gone.slot)
    | inr other ↦
        let miss : (pid == k && is_reapable k w.processes) ≡ false = ground (arith, other) in
        rw miss (others.states k (ground (arith, other)))
  ];
}

spared-Round :
    (pid : ℕ) (w : World) → CanReap w → is_reapable pid w.processes ≡ false → Round pid w w
spared-Round pid w c spared = record {
  can = c;
  current = refl;
  states = λ k. elim (Bool-cases (pid == k)) [
    | inl same ↦
        let e : pid ≡ k = ground (arith, same) in
        let miss : (pid == k && is_reapable k w.processes) ≡ false =
          ground (arith, rw e at spared) in
        rw miss refl
    | inr other ↦
        let miss : (pid == k && is_reapable k w.processes) ≡ false = ground (arith, other) in
        rw miss refl
  ];
}

not_current : (k : ℕ) (ps : Processes) → is_reapable k ps ≡ true → points_to ps.current k ≡ false
not_current k ps due = ground (arith, reapable_lem k ps, due)

reap_one-Round :
    (now pid : ℕ) (w : World)
    → pid < max_processes
    → CanReap w
    → (w' : World) × (reap_one now pid w ≡ some w') × Round pid w w'
unfolding reap_one
reap_one-Round now pid w below c = elim (Bool-cases (is_reapable pid w.processes)) [
  | inl due ↦
      let (w', done, gone, others) =
        destroy-Gone now pid w below c.caps c.on (c.sane pid below due)
          (not_current pid w.processes due) in
      (w', rw (due, done) refl, freed-Round pid w w' c due gone others)
  | inr spared ↦ (w, rw spared refl, spared-Round pid w c spared)
]

-- The rounds from `pid` on.
record Rounds (pid : ℕ) (w w' : World) : Type 0 where
  can : CanReap w'
  current : w'.processes.current ≡ w.processes.current
  states :
      (k : ℕ)
      → k < max_processes
      → state_at w' k ≡ (if leb pid k && is_reapable k w.processes then unused else state_at w k)

one_then_more :
    (pid : ℕ) (w mid w' : World) → Round pid w mid → Rounds (pid + 1) mid w' → Rounds pid w w'
one_then_more pid w mid w' r rs = record {
  can = rs.can;
  current = rs.current ∙ r.current;
  states = λ k small. elim (Bool-cases (pid == k)) [
    | inl same ↦
        let late : leb (pid + 1) k ≡ false = ground (arith, same) in
        let soon : leb pid k ≡ true = ground (arith, same) in
        let last = rs.states k small in
        let first = r.states k in rw soon (rw late at last ∙ rw same at first)
    | inr other ↦
        let same_test : leb (pid + 1) k ≡ leb pid k = ground (arith, other) in
        let first : state_at mid k ≡ state_at w k = rw other at (r.states k) in
        let due = same_reapable k w.processes mid.processes r.current first in
        rs.states k small
        ∙ ap (λ b. if b && is_reapable k mid.processes then unused else state_at mid k) same_test
        ∙ ap (λ b. if leb pid k && b then unused else state_at mid k) due
        ∙ ap (λ s. if leb pid k && is_reapable k w.processes then unused else s) first
  ];
}

reap_from-Rounds :
    (now n pid : ℕ) (w : World)
    → pid + n ≡ max_processes
    → CanReap w
    → (w' : World) × (reap_from now n pid w ≡ some w') × Rounds pid w w'
unfolding reap_from
reap_from-Rounds now zero pid w e c = (
  w,
  refl,
  record {
    can = c;
    current = refl;
    states = λ k small. let past : leb pid k ≡ false = ground (arith, e, small) in rw past refl;
  },
)
reap_from-Rounds now (suc n) pid w e c =
    let (mid, one, r) = reap_one-Round now pid w (omega (arith, e)) c in
    let (w', rest, rs) = reap_from-Rounds now n (pid + 1) mid (omega (arith, e)) r.can in
    (w', rw one rest, one_then_more pid w mid w' r rs)

-- A pass of the reaper over a table whose terminated entries are valid, with a valid capability table,
-- ends; it makes unused exactly the terminated entries that are not the current process, leaves every
-- other state and the current process, and leaves the capability table valid.
pub process_reap_lem :
    (now : ℕ) (w : World)
    → CanReap w
    → (w' : World) × (process_reap now w ≡ some w')
      × IsValid w'.caps
      × (w'.processes.current ≡ w.processes.current)
      × ((k : ℕ)
          → k < max_processes
          → state_at w' k ≡ (if is_reapable k w.processes then unused else state_at w k))
unfolding process_reap
process_reap_lem now w c =
    let (w', done, rs) = reap_from-Rounds now max_processes 0 w refl c in
    (
      w',
      done,
      rs.can.caps,
      rs.current,
      λ k small.
          let zero_first : leb 0 k ≡ true = ground arith in rw zero_first at (rs.states k small),
    )
