-- ===== src/Syscall/Usable.antt =====
-- What `sys_cap_derive` hands over can be used.
use quantum_os.Prelude.{
  ℕ, ◌^◌, ◌<◌, ◌≡◌, ◌⊎◌, Bool, true, false, some, refl, inl, inr, arith, sym, ◌∙◌, ap, subst,
  bit_and, bit_or, bit_and_self, ==_refl,
}
use quantum_os.Capability.State.{Capability, success, resolve, is_expired}
use quantum_os.Capability.Create.{cap_grant, clamp_expiration}
use quantum_os.Capability.Find.{cap_find_resource}
use quantum_os.Capability.Invariant.{IsValid}
use quantum_os.Capability.Handles.{resolve-live}
use quantum_os.Capability.Mint.Derive.{cap_derive-success, child_cap}
use quantum_os.Capability.Authority.Grants.{Grants}
use quantum_os.Capability.Authority.Lookup.{cap_find_id-found}
use quantum_os.Manifest.Table.{Intents, manifest_grant, manifest_has_room}
use quantum_os.Manifest.Intent.{allows-grant, has_room-grant}
use quantum_os.Manifest.Declares.{Declares, allows_iff}
use quantum_os.Syscall.Gate.{Kernel, authorize}
use quantum_os.Syscall.Authority.{authorize_iff}
use quantum_os.Syscall.Delegate.{Request, sys_cap_derive}
use quantum_os.Syscall.Delegation.{Mints, Delegates, sys_cap_derive-Delegates}

granted_Declares :
    (pid rtype rid perms : ℕ) (t : Intents)
    → manifest_has_room pid t ≡ true
    → Declares pid rtype rid (manifest_grant pid rtype rid perms t).1
granted_Declares pid rtype rid perms t room =
    let t' = (manifest_grant pid rtype rid perms t).1 in
    let done : manifest_grant pid rtype rid perms t ≡ (true, t') =
      ap (λ (b : Bool). (b, t')) (has_room-grant pid rtype rid perms t room) in
    (allows_iff pid rtype rid t').0 (
      allows-grant pid rtype rid perms pid rtype rid t done
      ∙ ground (arith, ==_refl pid, ==_refl rtype, ==_refl rid))

clamp_alive :
    (now : ℕ) (parent child : Capability) (wanted : ℕ)
    → child.expiration ≡ clamp_expiration parent.expiration wanted
    → is_expired now parent ≡ false
    → (wanted ≡ 0) ⊎ (now < wanted)
    → is_expired now child ≡ false
unfolding is_expired clamp_expiration
clamp_alive now parent child wanted e alive soon = ground arith

child_Grants :
    (now pid new_owner rtype rid needed perms expiration id parent_id : ℕ)
    (parent child : Capability)
    → Grants now pid rtype rid needed parent
    → child ≡ child_cap id parent_id parent new_owner perms expiration
    → (expiration ≡ 0) ⊎ (now < expiration)
    → Grants now new_owner rtype rid perms child
child_Grants now pid new_owner rtype rid needed perms expiration id parent_id parent child g is
      soon =
    record {
      owner = ap (λ x. x.owner_id) is;
      class = ap (λ x. x.resource_type) is ∙ g.class;
      resource = ap (λ x. x.resource_id) is ∙ g.resource;
      unexpired =
          clamp_alive now parent child expiration (ap (λ x. x.expiration) is) g.unexpired soon;
      bits = ap (λ x. bit_and x.permissions perms) is ∙ bit_and_self perms;
    }

module _ (now pid : ℕ) (r : Request) (k k' : Kernel) (v : IsValid k.caps)
    (soon : (r.expiration ≡ 0) ⊎ (now < r.expiration)) where
  minted_usable :
      Mints now pid r k k'
      → (authorize now r.target_pid r.resource_type r.permissions r.resource_id k').0 ≡ true
  minted_usable m =
      let (i, handle, live, g) =
        cap_find_id-found now pid r.resource_type (bit_or r.permissions cap_grant) r.resource_id
          k.caps m.found in
      let is : m.parent_id ≡ (k.caps.table i).cap_id = ground (arith, handle) in
      let small : m.parent_id < 2 ^ 32 =
        omega (arith, is, v.tree.ids i live, v.tree.gens i, v.tree.bounded i live) in
      let (p, j, at, may, minted) =
        cap_derive-success now m.parent_id pid r.target_pid r.permissions r.expiration k.caps v
          small m.made in
      let here : resolve k.caps m.parent_id ≡ some i =
        subst (λ h. resolve k.caps h ≡ some i) (sym is) (resolve-live k.caps i v.tree live) in
      let same : i ≡ p = ground (arith, at, here) in
      let g' : Grants now pid r.resource_type r.resource_id (bit_or r.permissions cap_grant)
          (k.caps.table p).cap =
        subst
          (λ q.
            Grants now pid r.resource_type r.resource_id (bit_or r.permissions cap_grant)
              (k.caps.table q).cap)
          same g in
      (authorize_iff now r.target_pid r.resource_type r.permissions r.resource_id k' minted.valid).1
        (
          (
            j,
            minted.live,
            child_Grants now pid r.target_pid r.resource_type r.resource_id
                (bit_or r.permissions cap_grant) r.permissions r.expiration m.child_id m.parent_id
                (k.caps.table p).cap (k'.caps.table j).cap g' minted.holds soon,
          ),
          subst (Declares r.target_pid r.resource_type r.resource_id) (sym m.extended) (
              granted_Declares r.target_pid r.resource_type r.resource_id r.permissions k.intents
                m.room),
        )

  -- From a valid state, when `sys_cap_derive` returns 0 for a request whose expiration is 0 or still
  -- to come, the recipient passes both layers of `authorize` for the rights handed over, unless the
  -- capability layer covered it before.
  pub delegated_usable :
      sys_cap_derive now pid (some r) k ≡ (0, k')
      → (cap_find_resource now r.target_pid r.resource_type r.permissions r.resource_id k.caps
          ≡ success)
        ⊎ ((authorize now r.target_pid r.resource_type r.permissions r.resource_id k').0 ≡ true)
  delegated_usable e =
      elim (subst (Delegates now pid r k) e (sys_cap_derive-Delegates now pid r k)) [
        | inl (ne, u) ↦ absurd (ne refl)
        | inr (may, inl (ne, u)) ↦ absurd (ne refl)
        | inr (may, inr (z, inl (covered, u))) ↦ inl covered
        | inr (may, inr (z, inr m)) ↦ inr (minted_usable m)
      ]
