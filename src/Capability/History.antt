-- ===== src/Capability/History.antt =====
-- Every state that the calls of capability.c reach from boot is valid.
pub mod Kept
use quantum_os.Prelude.{ℕ, ◌<◌, ◌≡◌, ◌^◌, Bool, Option, some, arith, subst}
use quantum_os.Audit.{Ledger}
use quantum_os.Capability.State.{System, CapResult}
use quantum_os.Capability.Create.{cap_init, cap_create, cap_derive}
use quantum_os.Capability.Withdraw.{cap_revoke}
use quantum_os.Capability.Check.{cap_check, cap_mark_spawn_channel}
use quantum_os.Capability.Revoke.{cap_revoke_all_for_process, cap_revoke_ipc_targets}
use quantum_os.Capability.Invariant.{IsValid}
use quantum_os.Capability.Reap.{revoke_all_exactly, revoke_ipc_targets_exactly}
use Kept.{
  image, init-IsValid, create-IsValid, derive-IsValid, revoke-IsValid, check-IsValid, mark-IsValid,
}

-- One call of the interface, or a record that another component writes to the ledger.
pub data Step (s : System) : System → Type 0 where
  creates :
      {r : CapResult} {o : Option ℕ} {s' : System} (now owner rtype rid perms expiration : ℕ)
      (has_out : Bool)
      → cap_create now owner rtype rid perms expiration has_out s ≡ (r, o, s')
      → Step s s'
  derives :
      {r : CapResult} {o : Option ℕ} {s' : System}
      (now parent_id requester new_owner perms expiration : ℕ) (has_out : Bool)
      → parent_id < 2 ^ 32
      → cap_derive now parent_id requester new_owner perms expiration has_out s ≡ (r, o, s')
      → Step s s'
  revokes :
      {r : CapResult} {s' : System} (now id requester : ℕ)
      → id < 2 ^ 32
      → cap_revoke now id requester s ≡ some (r, s')
      → Step s s'
  checks :
      (now id pid rtype rid required : ℕ) → Step s (cap_check now id pid rtype rid required s).1
  marks : (id : ℕ) → Step s (cap_mark_spawn_channel id s).1
  reaps : {s' : System} (now pid : ℕ) → cap_revoke_all_for_process now pid s ≡ some s' → Step s s'
  unlinks :
      {s' : System} (now dead_pid : ℕ) → cap_revoke_ipc_targets now dead_pid s ≡ some s' → Step s s'
  writes : (l : Ledger) → Step s (record s { ledger = l })

pub data Reach : System → Type 0 where
  boots : (l : Ledger) → Reach (cap_init (image l)).1
  later : {s s' : System} → Reach s → Step s s' → Reach s'

-- Every call keeps a valid state valid, whatever it returns.
pub Step-IsValid : {s s' : System} → Step s s' → IsValid s → IsValid s'
Step-IsValid (creates now owner rtype rid perms expiration has_out e) v =
    create-IsValid now owner rtype rid perms expiration has_out _ v e
Step-IsValid (derives now parent_id requester new_owner perms expiration has_out small e) v =
    derive-IsValid now parent_id requester new_owner perms expiration has_out _ v small e
Step-IsValid (revokes now id requester small e) v = revoke-IsValid now id requester _ v small e
Step-IsValid (checks now id pid rtype rid required) v =
    check-IsValid now id pid rtype rid required _ v
Step-IsValid (marks id) v = mark-IsValid id _ v
Step-IsValid {s} {s'} (reaps now pid e) v =
    let (t, e', x) = revoke_all_exactly now pid s v in subst IsValid (ground (arith, e')) x.valid
Step-IsValid {s} {s'} (unlinks now pid e) v =
    let (t, e', x) = revoke_ipc_targets_exactly now pid s v in
    subst IsValid (ground (arith, e')) x.valid
Step-IsValid (writes l) v = record {
  tree = v.tree;
  mark = v.mark;
  below = v.below;
  active = v.active;
}

-- In every state that the calls reach from boot, in any order and with any results: live handles are
-- right and distinct, the parent of a live capability is live, derivation has no cycle, the
-- high-water mark covers every live slot, and `active` counts them.
pub Reach-IsValid : {s : System} → Reach s → IsValid s
Reach-IsValid (boots l) = init-IsValid l
Reach-IsValid (later r st) = Step-IsValid st (Reach-IsValid r)
