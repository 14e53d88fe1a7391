-- ===== src/Capability/Examples.antt =====
-- Runs of capability.c, and its theorems at concrete states.
use quantum_os.Prelude.{
  ℕ, ◌<◌, ◌≡◌, ◌≢◌, ◌⊎◌, ◌↔◌, ◌^◌, Bool, true, false, Option, none, some, refl, arith, find_first,
  and_then,
}
use quantum_os.Audit.Examples.{empty_ledger}
use quantum_os.Capability.State.{
  System, CapResult, success, denied, expired, invalid_id, no_space, alloc_slot, claim, resolve,
  is_expired,
}
use quantum_os.Capability.Create.{
  cap_init, cap_create, cap_derive, install, derive_from, derive_refusal, clamp_expiration,
}
use quantum_os.Capability.Check.{cap_check, check_verdict}
use quantum_os.Capability.Find.{cap_find_id}
use quantum_os.Capability.Revoke.{
  cap_revoke_all_for_process, cap_revoke_ipc_targets, is_owned_by, is_ipc_to, sweep, sweep_step,
  revoke_children_of, is_child_of, release, cascade_fuel,
}
use quantum_os.Capability.Withdraw.{cap_revoke, authorized}
use quantum_os.Capability.Invariant.{IsValid}
use quantum_os.Capability.Cascade.Exact.{RevokesExactly}
use quantum_os.Capability.Reap.{revoke_all_exactly, revoke_ipc_targets_exactly}
use quantum_os.Capability.Withdrawal.Ancestors.{MayRevoke, authorized_lem}
use quantum_os.Capability.Withdrawal.Released.{carries}
use quantum_os.Capability.Withdrawal.Outcome.{Entitled, cap_revoke_lem}
use quantum_os.Capability.Mint.Create.{Minted, IsFull, root_cap, cap_create_lem}
use quantum_os.Capability.Mint.Derive.{derive_attenuates}
use quantum_os.Capability.Authority.Lookup.{cap_find_id_iff}
use quantum_os.Capability.History.Kept.{image, init-IsValid, create-IsValid, derive-IsValid}
use quantum_os.Capability.History.{boots, later, creates, derives, Reach-IsValid}

booted : System
unfolding cap_init
booted = (cap_init (image empty_ledger)).1

-- Process 7 gets an IPC capability to process 9 with READ, WRITE, GRANT and REVOKE.
rooted : System
unfolding booted cap_create alloc_slot claim install find_first
rooted = (cap_create 5 7 1 9 0x1b 0 true booted).2

rooted_made : cap_create 5 7 1 9 0x1b 0 true booted ≡ (success, some 1, rooted)
unfolding rooted
rooted_made = refl

-- It hands READ on to process 8 until tick 40.
handed : System
unfolding rooted cap_derive derive_from derive_refusal clamp_expiration resolve is_expired
handed = (cap_derive 6 1 7 8 0x01 40 true rooted).2

handed_made : cap_derive 6 1 7 8 0x01 40 true rooted ≡ (success, some 2, handed)
unfolding handed
handed_made = refl

booted-IsValid : IsValid booted
unfolding booted
booted-IsValid = init-IsValid empty_ledger

rooted-IsValid : IsValid rooted
rooted-IsValid = create-IsValid 5 7 1 9 0x1b 0 true booted booted-IsValid rooted_made

handed-IsValid : IsValid handed
handed-IsValid = derive-IsValid 6 1 7 8 0x01 40 true rooted rooted-IsValid (omega arith) handed_made

-- Process 8 may read until tick 40, with its own handle and in its own name only.
handed_checks :
    ((cap_check 39 2 8 1 9 0x01 handed).0 ≡ success)
    × ((cap_check 40 2 8 1 9 0x01 handed).0 ≡ expired)
    × ((cap_check 39 2 7 1 9 0x01 handed).0 ≡ denied)
    × ((cap_check 39 2 8 1 9 0x02 handed).0 ≡ denied)
    × ((cap_check 39 0x10002 8 1 9 0x01 handed).0 ≡ invalid_id)
unfolding handed cap_check check_verdict
handed_checks = (refl, refl, refl, refl, refl)

-- Whether the first two slots are in use, and the counts of live and revoked capabilities.
summary : System → Option (Bool × Bool × ℕ × ℕ)
summary s = some ((s.table 0).in_use, (s.table 1).in_use, s.stats.active, s.stats.revoked)

-- The root's handle is gone with its owner, and its child with it.
reap_run : and_then (cap_revoke_all_for_process 50 7 handed) summary ≡ some (false, false, 0, 2)
unfolding handed cap_revoke_all_for_process sweep sweep_step revoke_children_of is_owned_by
    is_child_of release summary
reap_run = refl

masks_small : (i : ℕ) → (rooted.table i).permissions < 2 ^ 32
unfolding rooted
masks_small i = ground arith

revoke_all_exactly_example :
    (s' : System) × (cap_revoke_all_for_process 50 7 handed ≡ some s')
    × RevokesExactly (is_owned_by 7) handed s'
revoke_all_exactly_example = revoke_all_exactly 50 7 handed handed-IsValid

revoke_ipc_targets_exactly_example :
    (s' : System) × (cap_revoke_ipc_targets 50 9 handed ≡ some s')
    × RevokesExactly (is_ipc_to 9) handed s'
revoke_ipc_targets_exactly_example = revoke_ipc_targets_exactly 50 9 handed handed-IsValid

cap_revoke_lem_example :
    (Entitled 7 1 handed
      × ((s' : System) × (cap_revoke 50 1 7 handed ≡ some (success, s'))
          × RevokesExactly (carries 1) handed s'))
    ⊎ (¬ Entitled 7 1 handed
        × ((c : CapResult) × (c ≢ success) × (cap_revoke 50 1 7 handed ≡ some (c, handed))))
cap_revoke_lem_example = cap_revoke_lem 50 1 7 handed handed-IsValid (omega arith)

handed_reads : (cap_check 39 2 8 1 9 0x01 handed).0 ≡ success
handed_reads = handed_checks.0

derive_attenuates_example : ((cap_check 39 1 7 1 9 0x01 handed).0 ≡ success) × (◌≡◌ {A = ℕ} 8 8)
derive_attenuates_example =
    derive_attenuates 6 39 1 7 8 0x01 40 8 1 9 0x01 rooted rooted-IsValid (omega arith)
      (omega arith) masks_small handed_made handed_reads

Reach-IsValid_example : IsValid handed
unfolding cap_init booted rooted
Reach-IsValid_example = Reach-IsValid (
    later (later (boots empty_ledger) (creates 5 7 1 9 0x1b 0 true rooted_made))
      (derives 6 1 7 8 0x01 40 true (omega arith) handed_made))

state_or : System → Option System → System
state_or s none = s
state_or s (some t) = t

-- The state after process 7 is reaped.
reaped : System
unfolding handed cap_revoke_all_for_process sweep sweep_step revoke_children_of is_owned_by
    is_child_of release state_or
reaped = state_or handed (cap_revoke_all_for_process 50 7 handed)

reaped_made : cap_revoke_all_for_process 50 7 handed ≡ some reaped
unfolding reaped
reaped_made = refl

cap_create_lem_example :
    (IsFull booted × (cap_create 5 7 1 9 0x1b 0 true booted ≡ (no_space, none, booted)))
    ⊎ ((i : ℕ) × (id : ℕ) × (s' : System) × (cap_create 5 7 1 9 0x1b 0 true booted
          ≡ (success, some id, s'))
        × Minted booted s' (root_cap id 7 1 9 0x1b 0) i)
unfolding booted
cap_create_lem_example = cap_create_lem 5 7 1 9 0x1b 0 booted booted-IsValid refl (omega arith)

cap_find_id_iff_example : ((id : ℕ) × ((cap_check 39 id 8 1 9 0x01 handed).0 ≡ success)) ↔ (
    (k : ℕ) × (cap_find_id 39 8 1 0x01 9 true handed ≡ (success, some k))
    × ((cap_check 39 k 8 1 9 0x01 handed).0 ≡ success))
cap_find_id_iff_example = cap_find_id_iff 39 8 1 0x01 9 handed handed-IsValid

authorized_lem_example :
    (b : Bool) × (authorized cascade_fuel 7 2 handed ≡ some b) × ((b ≡ true) ↔ MayRevoke 7 handed 2)
authorized_lem_example = authorized_lem 7 2 handed handed-IsValid
