-- ===== src/Syscall/Delegation.antt =====
-- What a delegation through `sys_cap_derive` may do.
use quantum_os.Prelude.{
  ℕ, ◌≡◌, ◌≢◌, ◌⊎◌, true, some, refl, inl, inr, arith, Bool-cases, sym, subst, bit_and, bit_or,
  ◌==◌,
}
use quantum_os.Capability.State.{success}
use quantum_os.Capability.Create.{cap_grant, cap_derive}
use quantum_os.Capability.Withdraw.{cap_revoke_bit}
use quantum_os.Capability.Revoke.{resource_ipc}
use quantum_os.Capability.Find.{cap_find_resource, cap_find_id}
use quantum_os.Capability.Authority.Lookup.{cap_find_resource-cases, cap_find_id-cases}
use quantum_os.Manifest.Table.{allows, manifest_check, manifest_grant, manifest_has_room}
use quantum_os.Syscall.Gate.{Kernel, declared, deny}
use quantum_os.Syscall.Authority.{declared_verdict}
use quantum_os.Syscall.Delegate.{
  Request, hand_over, mint_for, sys_cap_derive, may_receive, cap_write, eperm, eio, einval,
}
use quantum_os.Syscall.Minting.{Untouched, same_Untouched, mint_for-cases}

deny-Untouched :
    (now pid rtype rid perms : ℕ) (k : Kernel) → Untouched k (deny now pid rtype rid perms k)
deny-Untouched now pid rtype rid perms k = record {
  table = refl;
  hwm = refl;
  stats = refl;
  intents = refl;
}

declared-Untouched :
    (now pid rtype rid perms : ℕ) (k : Kernel) → Untouched k (declared now pid rtype rid perms k).1
declared-Untouched now pid rtype rid perms k = record {
  table = refl;
  hwm = refl;
  stats = refl;
  intents = refl;
}

-- What a child minted by a call means: a parent of the caller's with CAP_GRANT, found by resource.
pub record Mints (now pid : ℕ) (r : Request) (k k' : Kernel) : Type 0 where
  pub parent_id : ℕ
  pub child_id : ℕ
  pub found :
      cap_find_id now pid r.resource_type (bit_or r.permissions cap_grant) r.resource_id true k.caps
      ≡ (success, some parent_id)
  pub room : manifest_has_room r.target_pid k.intents ≡ true
  pub made :
      cap_derive now parent_id pid r.target_pid r.permissions r.expiration true k.caps
      ≡ (success, some child_id, k'.caps)
  pub extended :
      k'.intents
      ≡ (manifest_grant r.target_pid r.resource_type r.resource_id r.permissions k.intents).1

-- Refused with no effect, or done: the recipient was covered already, or a child was minted.
abbrev pub Settled : ℕ → ℕ → Request → Kernel → ℕ × Kernel → Type 0
Settled now pid r k (code, k') =
    ((code ≢ 0) × Untouched k k')
    ⊎ ((code ≡ 0)
        × (((cap_find_resource now r.target_pid r.resource_type r.permissions r.resource_id k.caps
                ≡ success)
              × Untouched k k')
            ⊎ Mints now pid r k k'))

module _ (now pid : ℕ) (r : Request) (k : Kernel) where
  abbrev needed : ℕ
  needed = bit_or r.permissions cap_grant

  minting-Settled :
      (id : ℕ)
      → cap_find_id now pid r.resource_type needed r.resource_id true k.caps ≡ (success, some id)
      → manifest_has_room r.target_pid k.intents ≡ true
      → Settled now pid r k (mint_for now pid r id k)
  minting-Settled id found room = elim (mint_for-cases now pid r id k) [
    | inl (child, caps, made, is) ↦ subst (Settled now pid r k) (sym is) (
        inr (
          refl,
          inr (record {
            parent_id = id;
            child_id = child;
            found = found;
            room = room;
            made = made;
            extended = refl;
          }),
        ))
    | inr (code, ne, is) ↦ subst (Settled now pid r k) (sym is) (inl (ne, same_Untouched k k refl))
  ]

  hand_over-Settled : Settled now pid r k (hand_over now pid r k)
  unfolding hand_over
  hand_over-Settled =
      elim (cap_find_resource-cases now r.target_pid r.resource_type r.permissions r.resource_id
        k.caps) [
          | inl covered ↦
              let is : hand_over now pid r k ≡ (0, k) = rw (covered, hand_over) in
              subst (Settled now pid r k) (sym is)
                (inr (refl, inl (covered, same_Untouched k k refl)))
          | inr bare ↦
              elim (cap_find_id-cases now pid r.resource_type needed r.resource_id k.caps) [
                | inr missed ↦
                    let is : hand_over now pid r k
                        ≡ (eperm, deny now pid r.resource_type r.resource_id needed k) =
                      rw (bare, missed, hand_over) in
                    subst (Settled now pid r k) (sym is) (
                      inl (
                        omega arith,
                        deny-Untouched now pid r.resource_type r.resource_id needed k,
                      ))
                | inl (id, found) ↦ elim (Bool-cases (manifest_has_room r.target_pid k.intents)) [
                  | inr full ↦
                      let is : hand_over now pid r k ≡ (eio, k) =
                        rw (bare, found, full, hand_over) in
                      subst (Settled now pid r k) (sym is)
                        (inl (omega arith, same_Untouched k k refl))
                  | inl room ↦
                      let is : hand_over now pid r k ≡ mint_for now pid r id k =
                        ground (arith, bare, found, room) in
                      subst (Settled now pid r k) (sym is) (minting-Settled id found room)
                ]
              ]
        ]

-- What `sys_cap_derive` asks of the caller, the request and the recipient before it hands over.
pub record MayDelegate (now pid : ℕ) (r : Request) (k : Kernel) : Type 0 where
  pub one_hop : bit_and r.permissions (bit_or cap_grant cap_revoke_bit) ≡ 0
  pub recipient : may_receive pid r.target_pid k ≡ true
  pub peer : cap_find_resource now pid resource_ipc cap_write r.target_pid k.caps ≡ success
  pub declares : allows pid r.resource_type r.resource_id k.intents ≡ true

-- A code with the kernel after it: a refusal has no effect, a success was permitted.
abbrev pub Delegates : ℕ → ℕ → Request → Kernel → ℕ × Kernel → Type 0
Delegates now pid r k (code, k') =
    ((code ≢ 0) × Untouched k k') ⊎ (MayDelegate now pid r k × Settled now pid r k (code, k'))

declared_passes :
    (now pid rtype rid perms : ℕ) (k : Kernel)
    → allows pid rtype rid k.intents ≡ true
    → declared now pid rtype rid perms k ≡ (true, k)
unfolding manifest_check
declared_passes now pid rtype rid perms k h = rw h

module _ (now pid : ℕ) (r : Request) (k : Kernel) where
  refused :
      (code : ℕ) (k' : Kernel)
      → code ≢ 0
      → Untouched k k'
      → sys_cap_derive now pid (some r) k ≡ (code, k')
      → Delegates now pid r k (sys_cap_derive now pid (some r) k)
  refused code k' ne u is = subst (Delegates now pid r k) (sym is) (inl (ne, u))

  peer_outcome :
      r.permissions ≢ 0
      → bit_and r.permissions (bit_or cap_grant cap_revoke_bit) ≡ 0
      → may_receive pid r.target_pid k ≡ true
      → Delegates now pid r k (sys_cap_derive now pid (some r) k)
  unfolding sys_cap_derive
  peer_outcome some_right one_hop recipient =
      elim (cap_find_resource-cases now pid resource_ipc cap_write r.target_pid k.caps) [
        | inr stranger ↦
            refused eperm (deny now pid resource_ipc r.target_pid cap_write k) (omega arith)
              (deny-Untouched now pid resource_ipc r.target_pid cap_write k)
              (ground (arith, some_right, one_hop, recipient, stranger))
        | inl peer ↦ elim (Bool-cases (allows pid r.resource_type r.resource_id k.intents)) [
          | inr undeclared ↦
              refused eperm (declared now pid r.resource_type r.resource_id r.permissions k).1
                (omega arith)
                (declared-Untouched now pid r.resource_type r.resource_id r.permissions k)
                (ground (
                  arith,
                  some_right,
                  one_hop,
                  recipient,
                  peer,
                  undeclared,
                  declared_verdict now pid r.resource_type r.resource_id r.permissions k,
                ))
          | inl declares ↦
              let passes =
                declared_passes now pid r.resource_type r.resource_id r.permissions k declares in
              let is : sys_cap_derive now pid (some r) k ≡ hand_over now pid r k =
                ground (arith, some_right, one_hop, recipient, peer, passes) in
              subst (Delegates now pid r k) (sym is) (
                inr (
                  record {
                    one_hop = one_hop;
                    recipient = recipient;
                    peer = peer;
                    declares = declares;
                  },
                  hand_over-Settled now pid r k,
                ))
        ]
      ]

  -- A delegation is all or nothing. With any code but 0, no capability, counter or manifest has
  -- changed. With 0, the request had neither CAP_GRANT nor CAP_REVOKE, the recipient is another
  -- process, of a live user program that is not monitored, the caller held an IPC send capability for
  -- it and declares the resource itself; and either the recipient was covered already and nothing
  -- changed, or a child of a grantable capability of the caller's was minted and the recipient's
  -- manifest extended.
  pub sys_cap_derive-Delegates : Delegates now pid r k (sys_cap_derive now pid (some r) k)
  unfolding sys_cap_derive
  sys_cap_derive-Delegates = elim (Bool-cases (r.permissions == 0)) [
    | inl no_right ↦
        refused einval k (omega arith) (same_Untouched k k refl) (ground (arith, no_right))
    | inr some_right ↦
        elim (Bool-cases (bit_and r.permissions (bit_or cap_grant cap_revoke_bit) == 0)) [
          | inr more_hops ↦
              refused eperm k (omega arith) (same_Untouched k k refl)
                (ground (arith, some_right, more_hops))
          | inl one_hop ↦ elim (Bool-cases (may_receive pid r.target_pid k)) [
            | inr unfit ↦
                refused eperm k (omega arith) (same_Untouched k k refl)
                  (ground (arith, some_right, one_hop, unfit))
            | inl recipient ↦
                peer_outcome (ground (arith, some_right)) (ground (arith, one_hop)) recipient
          ]
        ]
  ]
