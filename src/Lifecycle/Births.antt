-- ===== src/Lifecycle/Births.antt =====
-- The steps of a `process_create` that succeeds: the capabilities granted, and the new entry.
use quantum_os.Prelude.{
  ℕ, ◌<◌, Bool, true, not, ◌&&◌, ◌||◌, leb, ◌==◌, ◌≡◌, refl, inl, inr, ◌⊎◌, false, arith, ap, ◌∙◌,
  sym, subst, Bool-cases,
}
use quantum_os.Audit.Ring.{resource_process}
use quantum_os.Capability.State.{System, Capability, Slot, claim}
use quantum_os.Capability.Mint.Slots.{alloc_slot-cases}
use quantum_os.Capability.Create.{cap_create, install, resource_type_count}
use quantum_os.Capability.Invariant.{IsValid}
use quantum_os.Capability.Mint.Create.{cap_create_lem, root_cap, IsFull}
use quantum_os.Capability.Revoke.{is_owned_by, is_ipc_to}
use quantum_os.Lifecycle.{World}
use quantum_os.Lifecycle.Create.{
  Params, grant_root, grant_pool, perm_all, resource_quantum, quantum_pool, pool_perms,
}

-- The rights that a process is born with: over itself, and on the qubit pool if it asked for them.
abbrev pub is_birthright : ℕ → Params → Capability → Bool
is_birthright pid q c =
    (c.resource_type == resource_process && (c.resource_id == pid && c.permissions == perm_all))
    || (q.is_quantum_aware
        && (c.resource_type == resource_quantum
            && (c.resource_id == quantum_pool && c.permissions == pool_perms)))

-- What `pid` owns is among its birthrights.
abbrev pub OwnsBirthrights : ℕ → Params → System → Type 0
OwnsBirthrights pid q s =
    (j : ℕ) → is_owned_by pid (s.table j) ≡ true → is_birthright pid q (s.table j).cap ≡ true

-- Some slot holds a root capability of the process with these rights.
abbrev pub Holds : ℕ → ℕ → ℕ → ℕ → System → Type 0
Holds pid rtype rid perms s =
    (i : ℕ) × (id : ℕ) × ((s.table i).in_use ≡ true)
    × ((s.table i).cap ≡ root_cap id pid rtype rid perms 0)

-- `cap_create` for a new process: what every slot satisfies, the one it fills included, still holds.
create-keeps :
    (now pid rtype rid perms : ℕ) (P : Slot → Bool) (s : System)
    → IsValid s
    → s.initialized ≡ true
    → rtype < resource_type_count
    → ((id : ℕ) (x : Slot)
        → x.in_use ≡ true
        → x.cap ≡ root_cap id pid rtype rid perms 0
        → P x ≡ true)
    → ((j : ℕ) → P (s.table j) ≡ true)
    → let t = (cap_create now pid rtype rid perms 0 true s).2 in
      IsValid t × ((j : ℕ) → P (t.table j) ≡ true)
create-keeps now pid rtype rid perms P s v on class fits all =
    elim (cap_create_lem now pid rtype rid perms 0 s v on class) [
      | inl (full, same) ↦ rw same (v, all)
      | inr (i, id, s', made, m) ↦ rw made (
        m.valid,
        λ j. elim (Bool-cases (i == j)) [
          | inl here ↦
              let e : i ≡ j = ground (arith, here) in
              subst (λ k. P (s'.table k) ≡ true) e (fits id (s'.table i) m.live m.holds)
          | inr other ↦ ap P (m.others j (ground (arith, other))) ∙ all j
        ],
      )
    ]

-- The right asked for is held, unless the table was full, and then nothing changes.
create-Holds :
    (now pid rtype rid perms : ℕ) (s : System)
    → IsValid s
    → s.initialized ≡ true
    → rtype < resource_type_count
    → let t = (cap_create now pid rtype rid perms 0 true s).2 in
      (IsFull s × (t ≡ s)) ⊎ Holds pid rtype rid perms t
create-Holds now pid rtype rid perms s v on class =
    elim (cap_create_lem now pid rtype rid perms 0 s v on class) [
      | inl (full, same) ↦ inl (full, rw same refl)
      | inr (i, id, s', made, m) ↦ inr (rw made (i, id, m.live, m.holds))
    ]

-- What was held before is held still.
Holds-kept :
    (now pid rtype rid perms : ℕ) (s : System)
    → IsValid s
    → s.initialized ≡ true
    → rtype < resource_type_count
    → {owner kind number rights : ℕ} → Holds owner kind number rights s
    → Holds owner kind number rights (cap_create now pid rtype rid perms 0 true s).2
Holds-kept now pid rtype rid perms s v on class (k, id, live, is) =
    elim (cap_create_lem now pid rtype rid perms 0 s v on class) [
      | inl (full, same) ↦ rw same (k, id, live, is)
      | inr (i, new, s', made, m) ↦
          let same = m.others k (λ e. ground (arith, e, m.was_free, live)) in
          rw made
            (k, id, ap (λ (x : Slot). x.in_use) same ∙ live, ap (λ (x : Slot). x.cap) same ∙ is)
    ]

create-initialized :
    (now owner rtype rid perms : ℕ) (s : System)
    → (cap_create now owner rtype rid perms 0 true s).2.initialized ≡ s.initialized
unfolding cap_create install claim
create-initialized now owner rtype rid perms s =
    elim (Bool-cases (not s.initialized || (not true || leb resource_type_count rtype))) [
      | inl refused ↦ ground (arith, refused)
      | inr fine ↦ elim (alloc_slot-cases s) [
        | inl (none_free, full) ↦ ground (arith, fine, none_free)
        | inr (i, id, t, got, a) ↦
            let on : t.initialized ≡ s.initialized = ap (λ (x : System). x.initialized) a.claimed in
            ground (arith, fine, got, on)
      ]
    ]

-- A slot as the new process may leave it: owned by it only as a birthright, and not an IPC capability
-- for its pid.
abbrev is_proper : ℕ → Params → Slot → Bool
is_proper pid q x = (not (is_owned_by pid x) || is_birthright pid q x.cap) && not (is_ipc_to pid x)

-- What the new process owns and who holds an IPC capability for it.
pub record Rights (pid : ℕ) (q : Params) (pool_on : Bool) (s s' : System) : Type 0 where
  pub valid : IsValid s'
  pub only : OwnsBirthrights pid q s'
  pub over_itself : IsFull s ⊎ Holds pid resource_process pid perm_all s'
  pub on_pool :
      q.is_quantum_aware && pool_on ≡ true
      → IsFull s' ⊎ Holds pid resource_quantum quantum_pool pool_perms s'
  pub unreached : (j : ℕ) → is_ipc_to pid (s'.table j) ≡ false

module _ (now pid : ℕ) (q : Params) where
  root_proper :
      (s : System)
      → IsValid s
      → s.initialized ≡ true
      → ((j : ℕ) → is_proper pid q (s.table j) ≡ true)
      → let t = (cap_create now pid resource_process pid perm_all 0 true s).2 in
        IsValid t × ((j : ℕ) → is_proper pid q (t.table j) ≡ true)
  unfolding is_ipc_to is_owned_by
  root_proper s v on proper =
      create-keeps now pid resource_process pid perm_all (is_proper pid q) s v on (omega arith)
        (λ id x live is. ground (arith, live, is)) proper

  pool_proper :
      (s : System)
      → IsValid s
      → s.initialized ≡ true
      → q.is_quantum_aware ≡ true
      → ((j : ℕ) → is_proper pid q (s.table j) ≡ true)
      → let t = (cap_create now pid resource_quantum quantum_pool pool_perms 0 true s).2 in
        IsValid t × ((j : ℕ) → is_proper pid q (t.table j) ≡ true)
  unfolding is_ipc_to is_owned_by
  pool_proper s v on aware proper =
      create-keeps now pid resource_quantum quantum_pool pool_perms (is_proper pid q) s v on
        (omega arith) (λ id x live is. ground (arith, live, is, aware)) proper

  proper-only :
      (s : System) → ((j : ℕ) → is_proper pid q (s.table j) ≡ true) → OwnsBirthrights pid q s
  proper-only s proper j mine = ground (arith, proper j, mine)

  proper-unreached :
      (s : System)
      → ((j : ℕ) → is_proper pid q (s.table j) ≡ true)
      → (j : ℕ) → is_ipc_to pid (s.table j) ≡ false
  proper-unreached s proper j = ground (arith, proper j, Bool-cases (is_ipc_to pid (s.table j)))

  -- Both grants, over a table in which the process owns nothing and cannot be reached.
  pub grants-Rights :
      (pool_on : Bool) (w : World)
      → IsValid w.caps
      → w.caps.initialized ≡ true
      → ((j : ℕ) → is_owned_by pid (w.caps.table j) ≡ false)
      → ((j : ℕ) → is_ipc_to pid (w.caps.table j) ≡ false)
      → Rights pid q pool_on w.caps
          (grant_pool now pid (q.is_quantum_aware && pool_on) (grant_root now pid w)).caps
  unfolding grant_pool grant_root
  grants-Rights pool_on w v on none_owned none_inbound =
      let mid = (cap_create now pid resource_process pid perm_all 0 true w.caps).2 in
      let (v1, proper) =
        root_proper w.caps v on (λ j. ground (arith, none_owned j, none_inbound j)) in
      let on1 : mid.initialized ≡ true =
        create-initialized now pid resource_process pid perm_all w.caps ∙ on in
      let self : IsFull w.caps ⊎ Holds pid resource_process pid perm_all mid =
        elim (create-Holds now pid resource_process pid perm_all w.caps v on (omega arith)) [
          | inl (full, _) ↦ inl full
          | inr held ↦ inr held
        ] in
      elim (Bool-cases (q.is_quantum_aware && pool_on)) [
        | inr plain ↦ rw plain (record {
          valid = v1;
          only = proper-only mid proper;
          over_itself = self;
          on_pool = λ wanted. absurd (ground (arith, plain, wanted));
          unreached = proper-unreached mid proper;
        })
        | inl aware ↦
            let end = (cap_create now pid resource_quantum quantum_pool pool_perms 0 true mid).2 in
            let (v2, proper2) = pool_proper mid v1 on1 (ground (arith, aware)) proper in
            rw aware (record {
              valid = v2;
              only = proper-only end proper2;
              over_itself = elim self [
                | inl full ↦ inl full
                | inr held ↦ inr (
                    Holds-kept now pid resource_quantum quantum_pool pool_perms mid v1 on1
                      (omega arith) held)
              ];
              on_pool = λ wanted.
                  elim (create-Holds now pid resource_quantum quantum_pool pool_perms mid v1 on1
                    (omega arith)) [
                      | inl (full, same) ↦ inl (subst IsFull (sym same) full)
                      | inr held ↦ inr held
                    ];
              unreached = proper-unreached end proper2;
            })
      ]
