-- ===== src/Syscall/Minting.antt =====
-- The last steps of `sys_cap_derive`: all or nothing.
use quantum_os.Prelude.{
  ℕ, ◌≡◌, ◌≢◌, ◌⊎◌, true, none, some, refl, inl, inr, arith, Option-cases, sym, ap,
}
use quantum_os.Capability.State.{System, CapResult, success, invalid_id, no_space, resolve}
use quantum_os.Capability.Create.{cap_derive, derive_from, derive_refusal}
use quantum_os.Capability.Mint.Slots.{alloc_slot-cases}
use quantum_os.Manifest.Table.{manifest_grant}
use quantum_os.Syscall.Gate.{Kernel}
use quantum_os.Syscall.Delegate.{Request, settle, mint_for, cap_derive_errno}

-- What must not differ for a call to have had no effect: all but the ledger.
pub record Untouched (k k' : Kernel) : Type 0 where
  pub table : k'.caps.table ≡ k.caps.table
  pub hwm : k'.caps.hwm ≡ k.caps.hwm
  pub stats : k'.caps.stats ≡ k.caps.stats
  pub intents : k'.intents ≡ k.intents

pub same_Untouched : (k k' : Kernel) → k ≡ k' → Untouched k k'
same_Untouched k k' e = record {
  table = ap (λ (w : Kernel). w.caps.table) (sym e);
  hwm = ap (λ (w : Kernel). w.caps.hwm) (sym e);
  stats = ap (λ (w : Kernel). w.caps.stats) (sym e);
  intents = ap (λ (w : Kernel). w.intents) (sym e);
}

module _ (now parent_id requester new_owner perms expiration : ℕ) (s : System) where
  -- `cap_derive` either succeeds with a handle or leaves the state alone.
  pub cap_derive-cases :
      ((id : ℕ) × (s' : System) × (cap_derive now parent_id requester new_owner perms expiration
            true s
          ≡ (success, some id, s')))
      ⊎ ((r : CapResult) × (cap_derive_errno r ≢ 0)
          × (cap_derive now parent_id requester new_owner perms expiration true s ≡ (r, none, s)))
  unfolding cap_derive derive_from derive_refusal
  cap_derive-cases = elim (Option-cases (resolve s parent_id)) [
    | inl stale ↦ inr (invalid_id, omega arith, ground (arith, stale))
    | inr (p, found) ↦ elim (Option-cases (derive_refusal now (s.table p).cap requester perms)) [
      | inr (r, refused) ↦ inr (r, ground (arith, refused), ground (arith, found, refused))
      | inl passed ↦ elim (alloc_slot-cases s) [
        | inl (none_free, full) ↦
            inr (no_space, omega arith, ground (arith, found, passed, none_free))
        | inr (i, id, t, got, a) ↦ inl (
          id,
          (derive_from now parent_id (s.table p).cap new_owner perms expiration s).2,
          ground (arith, found, passed, got),
        )
      ]
    ]
  ]

module _ (now pid : ℕ) (r : Request) (parent_id : ℕ) (k : Kernel) where
  -- With room in the recipient's manifest, minting gives both the capability and the row, or neither.
  pub mint_for-cases :
      ((id : ℕ) × (caps : System) × (cap_derive now parent_id pid r.target_pid r.permissions
            r.expiration true k.caps
          ≡ (success, some id, caps))
        × (mint_for now pid r parent_id k ≡ (
          0,
          record k {
            caps = caps;
            intents =
                (manifest_grant r.target_pid r.resource_type r.resource_id r.permissions
                  k.intents).1;
          },
        )))
      ⊎ ((code : ℕ) × (code ≢ 0) × (mint_for now pid r parent_id k ≡ (code, k)))
  unfolding mint_for settle
  mint_for-cases =
      elim (cap_derive-cases now parent_id pid r.target_pid r.permissions r.expiration k.caps) [
        | inl (id, caps, made) ↦ inl (id, caps, made, rw (made, mint_for, settle))
        | inr (refusal, ne, refused) ↦
            inr (cap_derive_errno refusal, ne, rw (refused, mint_for) (settled refusal ne))
      ]
    where
      settled :
          (res : CapResult)
          → cap_derive_errno res ≢ 0
          → settle r k res k.caps ≡ (cap_derive_errno res, k)
      settled success ne = absurd (ne refl)
      settled res ne = refl
