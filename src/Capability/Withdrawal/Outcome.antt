-- ===== src/Capability/Withdrawal/Outcome.antt =====
-- What `cap_revoke` does on every branch.
use quantum_os.Prelude.{
  ℕ, ◌<◌, ◌≡◌, ◌≢◌, ◌⊎◌, ◌^◌, true, false, Option, some, inl, inr, arith, Bool-cases, Option-cases,
  ◌==◌, and_then, if◌then◌else◌, subst, sym,
}
use quantum_os.Capability.State.{
  System, CapResult, success, invalid_id, not_owner, not_revocable, resolve,
}
use quantum_os.Capability.Revoke.{cascade_fuel}
use quantum_os.Capability.Withdraw.{cap_revoke, authorized, revoke_slot}
use quantum_os.Capability.Invariant.{IsValid}
use quantum_os.Capability.Cascade.Exact.{RevokesExactly}
use quantum_os.Capability.Withdrawal.Ancestors.{MayRevoke, authorized_lem}
use quantum_os.Capability.Withdrawal.Released.{carries, revoke_slot_lem}

-- The handle names a live revocable capability that the requester owns, or one of whose ancestors
-- the requester owns with CAP_REVOKE.
abbrev pub Entitled : ℕ → ℕ → System → Type 0
Entitled requester id s =
    (i : ℕ) × (resolve s id ≡ some i)
    × ((s.table i).is_revocable ≡ true)
    × (((s.table i).owner_id ≡ requester) ⊎ MayRevoke requester s (s.table i).parent_cap)

-- What entitles a requester to the capability in the slot that the handle resolves to.
Entitled-at :
    (requester id i : ℕ) (s : System)
    → resolve s id ≡ some i
    → Entitled requester id s
    → ((s.table i).is_revocable ≡ true)
      × (((s.table i).owner_id ≡ requester) ⊎ MayRevoke requester s (s.table i).parent_cap)
Entitled-at requester id i s e (k, e', revocable, why) =
    let same : k ≡ i = ground (arith, e, e') in
    subst
      (λ j.
        ((s.table j).is_revocable ≡ true)
        × (((s.table j).owner_id ≡ requester) ⊎ MayRevoke requester s (s.table j).parent_cap))
      same (revocable, why)

abbrev Outcome : ℕ → ℕ → System → Option (CapResult × System) → Type 0
Outcome requester id s r =
    (Entitled requester id s
      × ((s' : System) × (r ≡ some (success, s')) × RevokesExactly (carries id) s s'))
    ⊎ (¬ Entitled requester id s × ((c : CapResult) × (c ≢ success) × (r ≡ some (c, s))))

by_ancestor :
    (now id requester i : ℕ) (s : System)
    → IsValid s
    → id < 2 ^ 32
    → resolve s id ≡ some i
    → (s.table i).is_revocable ≡ true
    → (s.table i).owner_id ≢ requester
    → Outcome requester id s (
        and_then
          (authorized cascade_fuel requester (s.table i).parent_cap s)
          (λ allowed. if allowed then revoke_slot now id i s else some (not_owner, s)))
by_ancestor now id requester i s v small e revocable other =
    let (b, r, both) = authorized_lem requester (s.table i).parent_cap s v in
    elim (Bool-cases b) [
      | inl allowed ↦
          let (s', q, x) = revoke_slot_lem now id i s v small e in
          inl ((i, e, revocable, inr (both.0 allowed)), (s', rw (r, allowed) q, x))
      | inr refused ↦ inr (
        λ ent. elim (Entitled-at requester id i s e ent).1 [
          | inl own ↦ other own
          | inr may ↦ absurd (ground (arith, both.1 may, refused))
        ],
        (not_owner, (λ h. ground arith), rw (r, refused)),
      )
    ]

asks_ancestors :
    (now id requester i : ℕ) (s : System)
    → resolve s id ≡ some i
    → (s.table i).is_revocable ≡ true
    → ((s.table i).owner_id == requester) ≡ false
    → cap_revoke now id requester s
      ≡ and_then
          (authorized cascade_fuel requester (s.table i).parent_cap s)
          (λ allowed. if allowed then revoke_slot now id i s else some (not_owner, s))
unfolding cap_revoke
asks_ancestors now id requester i s e revocable other = rw (e, cap_revoke, revocable, other)

-- In a valid state `cap_revoke` always returns. It succeeds for an entitled requester, and then frees
-- exactly the capability and everything derived from it; for any other it fails and changes nothing.
pub cap_revoke_lem :
    (now id requester : ℕ) (s : System)
    → IsValid s
    → id < 2 ^ 32
    → (Entitled requester id s
        × ((s' : System) × (cap_revoke now id requester s ≡ some (success, s'))
            × RevokesExactly (carries id) s s'))
      ⊎ (¬ Entitled requester id s
          × ((c : CapResult) × (c ≢ success) × (cap_revoke now id requester s ≡ some (c, s))))
unfolding cap_revoke
cap_revoke_lem now id requester s v small = elim (Option-cases (resolve s id)) [
  | inl dead ↦
      inr (
        λ ent. ground (arith, dead, ent.1),
        (invalid_id, (λ h. ground arith), rw (dead, cap_revoke)),
      )
  | inr (i, e) ↦ elim (Bool-cases (s.table i).is_revocable) [
    | inr fixed ↦ inr (
      λ ent. ground (arith, fixed, (Entitled-at requester id i s e ent).0),
      (not_revocable, (λ h. ground arith), rw (e, cap_revoke, fixed)),
    )
    | inl revocable ↦ elim (Bool-cases ((s.table i).owner_id == requester)) [
      | inl own ↦
          let (s', q, x) = revoke_slot_lem now id i s v small e in
          inl (
            (i, e, revocable, inl (ground (arith, own))),
            (s', rw (e, cap_revoke, revocable, own) q, x),
          )
      | inr other ↦
          subst (Outcome requester id s)
            (sym (asks_ancestors now id requester i s e revocable other))
            (by_ancestor now id requester i s v small e revocable (ground (arith, other)))
    ]
  ]
]
