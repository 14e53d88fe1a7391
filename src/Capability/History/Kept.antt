-- ===== src/Capability/History/Kept.antt =====
-- Each call of capability.c keeps a valid state valid.
use quantum_os.Prelude.{
  ℕ, ◌<◌, ◌≡◌, ◌^◌, Bool, true, false, not, ◌||◌, leb, Option, some, refl, inl, inr, arith, subst,
  sym, Bool-cases, Option-cases, update, ◌∙◌,
}
use quantum_os.Audit.{Ledger}
use quantum_os.Capability.State.{System, CapResult, success, resolve, max_capabilities}
use quantum_os.Capability.Create.{
  cap_init, cap_create, cap_derive, derive_refusal, derive_from, empty_slot, resource_type_count,
  count_created, count_derived,
}
use quantum_os.Capability.Withdraw.{cap_revoke}
use quantum_os.Capability.Check.{cap_check, cap_mark_spawn_channel, counted, check_verdict}
use quantum_os.Capability.Invariant.{IsValid}
use quantum_os.Capability.Invariant.Count.{used-free, used_ext}
use quantum_os.Capability.Invariant.Grow.{relabel-IsTree}
use quantum_os.Capability.Handles.{resolve-some, resolve-cap_id}
use quantum_os.Capability.Mint.Slots.{alloc_slot-cases}
use quantum_os.Capability.Mint.Create.{filled-Minted, root_cap}
use quantum_os.Capability.Mint.Derive.{child_cap}
use quantum_os.Capability.Withdrawal.Outcome.{cap_revoke_lem}

-- The statics as the kernel image holds them: all zero.
abbrev pub image : Ledger → System
image l = record {
  table = λ _. empty_slot;
  hwm = 0;
  stats = record {
    created = 0;
    derived = 0;
    revoked = 0;
    checks_passed = 0;
    checks_denied = 0;
    active = 0;
  };
  initialized = false;
  ledger = l;
}

pub init-IsValid : (l : Ledger) → IsValid (cap_init (image l)).1
unfolding cap_init
init-IsValid l = record {
  tree = record {
    bounded = λ i u. cc;
    gens = λ i. omega arith;
    ids = λ i u. cc;
    parents = λ i u. cc;
    rank = λ _. 0;
    ranked = λ i u. cc;
    distinct = λ i j a b e. cc;
    older = λ i p a b e. cc;
  };
  mark = omega arith;
  below = λ i u. cc;
  active = sym (used-free max_capabilities (λ _. empty_slot) (λ _. refl));
}

pub create-IsValid :
    (now owner rtype rid perms expiration : ℕ) (has_out : Bool) (s : System) {r : CapResult}
    {o : Option ℕ} {s' : System}
    → IsValid s
    → cap_create now owner rtype rid perms expiration has_out s ≡ (r, o, s')
    → IsValid s'
unfolding cap_create
create-IsValid now owner rtype rid perms expiration has_out s v e =
    elim (Bool-cases (not s.initialized || (not has_out || leb resource_type_count rtype))) [
      | inl refused ↦ subst IsValid (ground (arith, refused)) v
      | inr fine ↦ elim (alloc_slot-cases s) [
        | inl (full, _) ↦ subst IsValid (ground (arith, fine, full)) v
        | inr (i, id, t, got, a) ↦
            let cap = root_cap id owner rtype rid perms expiration in
            let m =
              filled-Minted now count_created i cap s v a.in_range a.was_free a.handle (inl refl)
                (λ st. refl) in
            subst IsValid (ground (arith, fine, got, a.claimed)) m.valid
      ]
    ]

from_parent-IsValid :
    (now parent_id p new_owner perms expiration : ℕ) (s : System) {r : CapResult} {o : Option ℕ}
    {s' : System}
    → IsValid s
    → (s.table p).in_use ≡ true
    → (s.table p).cap_id ≡ parent_id
    → derive_from now parent_id (s.table p).cap new_owner perms expiration s ≡ (r, o, s')
    → IsValid s'
unfolding derive_from
from_parent-IsValid now parent_id p new_owner perms expiration s v live is e =
    elim (alloc_slot-cases s) [
      | inl (full, _) ↦ subst IsValid (ground (arith, full)) v
      | inr (i, id, t, got, a) ↦
          let cap = child_cap id parent_id (s.table p).cap new_owner perms expiration in
          let m =
            filled-Minted now count_derived i cap s v a.in_range a.was_free a.handle
              (inr (p, live, sym is)) (λ st. refl) in
          subst IsValid (ground (arith, got, a.claimed)) m.valid
    ]

pub derive-IsValid :
    (now parent_id requester new_owner perms expiration : ℕ) (has_out : Bool) (s : System)
    {r : CapResult} {o : Option ℕ} {s' : System}
    → IsValid s
    → parent_id < 2 ^ 32
    → cap_derive now parent_id requester new_owner perms expiration has_out s ≡ (r, o, s')
    → IsValid s'
unfolding cap_derive
derive-IsValid now parent_id requester new_owner perms expiration false s v small e =
    subst IsValid (ground arith) v
derive-IsValid now parent_id requester new_owner perms expiration true s {r} {o} {s'} v small e =
    elim (Option-cases (resolve s parent_id)) [
      | inl stale ↦ subst IsValid (ground (arith, stale)) v
      | inr (p, found) ↦ elim (Option-cases (derive_refusal now (s.table p).cap requester perms)) [
        | inr (c, refused) ↦ subst IsValid (ground (arith, found, refused)) v
        | inl passed ↦
            from_parent-IsValid now parent_id p new_owner perms expiration s {r = r} {o = o}
              {s' = s'} v (resolve-some s parent_id p found).2
              (resolve-cap_id s parent_id p v.tree small found) (ground (arith, found, passed))
      ]
    ]

pub revoke-IsValid :
    (now id requester : ℕ) (s : System) {r : CapResult} {s' : System}
    → IsValid s
    → id < 2 ^ 32
    → cap_revoke now id requester s ≡ some (r, s')
    → IsValid s'
revoke-IsValid now id requester s v small e = elim (cap_revoke_lem now id requester s v small) [
  | inl (may, (t, e', x)) ↦ subst IsValid (ground (arith, e')) x.valid
  | inr (may_not, (c, ne, e')) ↦ subst IsValid (ground (arith, e')) v
]

counted-IsValid : (s : System) (r : CapResult) → IsValid s → IsValid (counted s r).1
counted-IsValid s success v = record {
  tree = v.tree;
  mark = v.mark;
  below = v.below;
  active = v.active;
}
counted-IsValid s r v = record { tree = v.tree; mark = v.mark; below = v.below; active = v.active }

pub check-IsValid :
    (now id pid rtype rid required : ℕ) (s : System)
    → IsValid s
    → IsValid (cap_check now id pid rtype rid required s).1
unfolding cap_check
check-IsValid now id pid rtype rid required s v = elim (Option-cases (resolve s id)) [
  | inl dead ↦ rw (dead, cap_check) (counted-IsValid s CapResult.invalid_id v)
  | inr (i, e) ↦
      rw (e, cap_check)
        (counted-IsValid s (check_verdict now (s.table i).cap pid rtype rid required) v)
]

-- A slot's tag is no part of the tree.
tag_slot : ℕ → System → System
tag_slot i s =
    let slot = s.table i in
    record s {
      table =
          update s.table i (record slot { cap = record (slot.cap) { is_spawn_channel = true } });
    }

tag_slot-IsValid : (i : ℕ) (s : System) → IsValid s → IsValid (tag_slot i s)
unfolding tag_slot
tag_slot-IsValid i s v = record {
  tree = relabel-IsTree (tag_slot i s).table v.tree (λ j. ground arith);
  mark = v.mark;
  below = λ j u. ground (arith, v.below j);
  active =
      v.active ∙ sym (used_ext max_capabilities s.table (tag_slot i s).table (λ j. ground arith));
}

pub mark-IsValid : (id : ℕ) (s : System) → IsValid s → IsValid (cap_mark_spawn_channel id s).1
unfolding cap_mark_spawn_channel tag_slot
mark-IsValid id s v = elim (Option-cases (resolve s id)) [
  | inl dead ↦ rw (dead, cap_mark_spawn_channel) v
  | inr (i, e) ↦ rw (e, cap_mark_spawn_channel) (tag_slot-IsValid i s v)
]
