-- ===== src/Capability/Mint/Derive.antt =====
-- `cap_derive`: a child never has more authority than its parent.
use quantum_os.Prelude.{
  ℕ, ◌^◌, ◌<◌, ◌≡◌, ◌≢◌, inl, inr, true, false, none, some, refl, ap, sym, ◌∙◌, subst, arith,
  bit_and, bit_not, bit_and_subset, Option-cases,
}
use quantum_os.Capability.State.{System, Slot, Capability, success, resolve, is_expired, claim}
use quantum_os.Capability.Create.{
  cap_derive, derive_from, derive_refusal, clamp_expiration, cap_grant, install, count_derived,
}
use quantum_os.Capability.Check.{cap_check}
use quantum_os.Capability.Invariant.{IsValid}
use quantum_os.Capability.Handles.{resolve-some, resolve-cap_id, resolve-live}
use quantum_os.Capability.Mint.Slots.{alloc_slot-cases}
use quantum_os.Capability.Mint.Create.{Minted, filled-Minted}
use quantum_os.Capability.Authority.Grants.{Grants, cap_check_iff}

-- The capability that `cap_derive` writes.
abbrev pub child_cap : ℕ → ℕ → Capability → ℕ → ℕ → ℕ → Capability
child_cap id parent_id parent new_owner perms expiration = record {
  cap_id = id;
  owner_id = new_owner;
  resource_type = parent.resource_type;
  resource_id = parent.resource_id;
  permissions = perms;
  expiration = clamp_expiration parent.expiration expiration;
  is_revocable = true;
  is_inherited = true;
  is_spawn_channel = false;
  parent_cap = parent_id;
}

-- What must hold of the parent, in slot `p`, for a derivation to go through.
pub record MayDerive (now requester perms : ℕ) (parent : Capability) : Type 0 where
  pub owner : parent.owner_id ≡ requester
  pub unexpired : is_expired now parent ≡ false
  pub grants : bit_and parent.permissions cap_grant ≢ 0
  pub narrows : bit_and perms (bit_not 32 parent.permissions) ≡ 0

derive_refusal-none :
    (now : ℕ) (parent : Capability) (requester perms : ℕ)
    → derive_refusal now parent requester perms ≡ none
    → MayDerive now requester perms parent
unfolding derive_refusal
derive_refusal-none now parent requester perms h = ground arith

derive_from-Minted :
    (now parent_id p new_owner perms expiration : ℕ) (s : System) {id : ℕ} {s' : System}
    → IsValid s
    → (s.table p).in_use ≡ true
    → (s.table p).cap_id ≡ parent_id
    → derive_from now parent_id (s.table p).cap new_owner perms expiration s
      ≡ (success, some id, s')
    → (i : ℕ) × Minted s s' (child_cap id parent_id (s.table p).cap new_owner perms expiration) i
unfolding derive_from
derive_from-Minted now parent_id p new_owner perms expiration s {id} {s'} v live is e =
    elim (alloc_slot-cases s) [
      | inl (none_free, full) ↦ absurd (ground (arith, none_free))
      | inr (i, id', t, got, a) ↦
          let cap = child_cap id' parent_id (s.table p).cap new_owner perms expiration in
          let made = install now count_derived i cap (claim s i) in
          let m =
            filled-Minted now count_derived i cap s v a.in_range a.was_free a.handle
              (inr (p, live, sym is)) (λ st. refl) in
          let same_id : id' ≡ id = ground (arith, got) in
          let same_state : made ≡ s' = ground (arith, got, a.claimed) in
          (
            i,
            subst
                (λ k.
                  Minted s s' (child_cap k parent_id (s.table p).cap new_owner perms expiration) i)
                same_id (subst (λ w. Minted s w cap i) same_state m),
          )
    ]

-- A derivation that succeeds had a live parent that the requester owned, unexpired and with
-- CAP_GRANT, and mints a child with no bit that the parent lacks.
pub cap_derive-success :
    (now parent_id requester new_owner perms expiration : ℕ) (s : System) {id : ℕ} {s' : System}
    → IsValid s
    → parent_id < 2 ^ 32
    → cap_derive now parent_id requester new_owner perms expiration true s ≡ (success, some id, s')
    → (p : ℕ) × (i : ℕ) × (resolve s parent_id ≡ some p)
      × MayDerive now requester perms (s.table p).cap
      × Minted s s' (child_cap id parent_id (s.table p).cap new_owner perms expiration) i
unfolding cap_derive
cap_derive-success now parent_id requester new_owner perms expiration s v small e =
    elim (Option-cases (resolve s parent_id)) [
      | inl stale ↦ absurd (ground (arith, stale))
      | inr (p, found) ↦ elim (Option-cases (derive_refusal now (s.table p).cap requester perms)) [
        | inl passed ↦
            let live = (resolve-some s parent_id p found).2 in
            let is = resolve-cap_id s parent_id p v.tree small found in
            let (i, m) =
              derive_from-Minted now parent_id p new_owner perms expiration s v live is
                (ground (arith, found, passed)) in
            (p, i, found, derive_refusal-none now (s.table p).cap requester perms passed, m)
        | inr (r, refused) ↦ absurd (ground (arith, found, refused))
      ]
    ]

clamp_unexpired :
    (later : ℕ) (parent child : Capability) (expiration : ℕ)
    → child.expiration ≡ clamp_expiration parent.expiration expiration
    → is_expired later child ≡ false
    → is_expired later parent ≡ false
unfolding is_expired clamp_expiration
clamp_unexpired later parent child expiration e h = ground arith

-- What a child grants to anyone, its parent grants to its own owner, then and later.
child-Grants :
    (later id parent_id requester new_owner perms expiration pid rtype rid required : ℕ)
    (parent child : Capability)
    → child ≡ child_cap id parent_id parent new_owner perms expiration
    → parent.owner_id ≡ requester
    → bit_and perms (bit_not 32 parent.permissions) ≡ 0
    → perms < 2 ^ 32
    → parent.permissions < 2 ^ 32
    → Grants later pid rtype rid required child
    → Grants later requester rtype rid required parent × (pid ≡ new_owner)
child-Grants later id parent_id requester new_owner perms expiration pid rtype rid required parent
      child is owned narrows wp wq g =
    (
      record {
        owner = owned;
        class = ground (arith, is);
        resource = ground (arith, is);
        unexpired =
            clamp_unexpired later parent child expiration (ap (λ x. x.expiration) is) g.unexpired;
        bits =
            bit_and_subset 32 perms parent.permissions required wp wq narrows (ground (arith, is));
      },
      ground (arith, is),
    )

-- After a derivation, whatever request `cap_check` allows with the child's handle, then or at any
-- later tick, it allows the parent's owner with the parent's handle; and only the process that the
-- child was derived for gets it. Handle and masks are 32-bit words.
pub derive_attenuates :
    (now later parent_id requester new_owner perms expiration pid rtype rid required : ℕ)
    (s : System) {id : ℕ} {s' : System}
    → IsValid s
    → parent_id < 2 ^ 32
    → perms < 2 ^ 32
    → ((i : ℕ) → (s.table i).permissions < 2 ^ 32)
    → cap_derive now parent_id requester new_owner perms expiration true s ≡ (success, some id, s')
    → (cap_check later id pid rtype rid required s').0 ≡ success
    → ((cap_check later parent_id requester rtype rid required s').0 ≡ success) × (pid ≡ new_owner)
derive_attenuates now later parent_id requester new_owner perms expiration pid rtype rid required s
      {id} {s'} v small wp words e check =
    let (p, i, found, may, m) =
      cap_derive-success now parent_id requester new_owner perms expiration s v small e in
    let (j, at, g) = (cap_check_iff later id pid rtype rid required s').0 check in
    let same : j ≡ i = ground (arith, at, m.resolves) in
    let live = (resolve-some s parent_id p found).2 in
    let ne : i ≢ p = ground (arith, live, m.was_free) in
    let kept : s'.table p ≡ s.table p = m.others p ne in
    let live' : (s'.table p).in_use ≡ true = ground (arith, kept, live) in
    let is : (s'.table p).cap_id ≡ parent_id =
      ap (λ x. x.cap_id) kept ∙ resolve-cap_id s parent_id p v.tree small found in
    let again : resolve s' parent_id ≡ some p =
      subst (λ k. resolve s' k ≡ some p) is (resolve-live s' p m.valid.tree live') in
    let (granted, whose) =
      child-Grants later id parent_id requester new_owner perms expiration pid rtype rid required
        (s.table p).cap (s'.table j).cap
        (subst
          (λ k.
            (s'.table k).cap ≡ child_cap id parent_id (s.table p).cap new_owner perms expiration)
          (sym same) m.holds)
        may.owner may.narrows wp (words p) g in
    (
      (cap_check_iff later parent_id requester rtype rid required s').1 (
        p,
        again,
        subst (λ (x : Slot). Grants later requester rtype rid required x.cap) (sym kept) granted,
      ),
      whose,
    )
