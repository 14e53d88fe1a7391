-- ===== src/Capability/Withdrawal/Ancestors.antt =====
-- The walk up the ancestors ends, and finds one that the requester owns with CAP_REVOKE if there is.
use quantum_os.Prelude.{
  ℕ, zero, suc, ◌+◌, ◌<◌, ◌≡◌, ◌≢◌, ◌⊎◌, ◌↔◌, Bool, true, false, not, ◌&&◌, Option, none, some,
  refl, inl, inr, arith, Bool-cases, Option-cases, bit_and, ◌==◌, if◌then◌else◌, sym, subst,
}
use quantum_os.Capability.State.{System, resolve, cap_id_invalid, max_capabilities}
use quantum_os.Capability.Revoke.{cascade_fuel}
use quantum_os.Capability.Withdraw.{authorized, cap_revoke_bit}
use quantum_os.Capability.Invariant.{IsValid}
use quantum_os.Capability.Invariant.Tree.{IsTree}
use quantum_os.Capability.Invariant.Count.{used-le}
use quantum_os.Capability.Handles.{resolve-some, resolve-live, resolve-invalid}

-- The capability that a handle names, or one that it derives from, is the requester's and carries
-- CAP_REVOKE.
pub data MayRevoke (requester : ℕ) (s : System) : ℕ → Type 0 where
  here :
      {id : ℕ} (p : ℕ)
      → resolve s id ≡ some p
      → (s.table p).owner_id ≡ requester
      → bit_and (s.table p).permissions cap_revoke_bit ≢ 0
      → MayRevoke requester s id
  up :
      {id : ℕ} (p : ℕ)
      → resolve s id ≡ some p
      → MayRevoke requester s (s.table p).parent_cap
      → MayRevoke requester s id

abbrev Holds : ℕ → System → ℕ → Type 0
Holds requester s p =
    ((s.table p).owner_id ≡ requester) × (bit_and (s.table p).permissions cap_revoke_bit ≢ 0)

MayRevoke-cases :
    {requester : ℕ} {s : System} {id : ℕ}
    → MayRevoke requester s id
    → (p : ℕ) × (resolve s id ≡ some p)
      × (Holds requester s p ⊎ MayRevoke requester s (s.table p).parent_cap)
MayRevoke-cases (here p e o b) = (p, e, inl (o, b))
MayRevoke-cases (up p e m) = (p, e, inr m)

parent_older :
    (s : System) (v : IsTree s.table) (p q : ℕ)
    → (s.table p).in_use ≡ true
    → resolve s (s.table p).parent_cap ≡ some q
    → v.rank q < v.rank p
parent_older s v p q live e = elim (v.parents p live) [
  | inl root ↦ absurd ((resolve-some s (s.table p).parent_cap q e).4 root)
  | inr (r, live_r, is) ↦
      let same : q ≡ r = ground (arith, e, is, resolve-live s r v live_r) in
      subst (λ k. v.rank k < v.rank p) (sym same) (v.older p r live live_r is)
]

Decides : ℕ → ℕ → System → Option Bool → Type 0
Decides requester id s r = (b : Bool) × (r ≡ some b) × ((b ≡ true) ↔ MayRevoke requester s id)

module _ (requester : ℕ) (s : System) (v : IsTree s.table) where
  nobody : (id : ℕ) → resolve s id ≡ none → (false ≡ true) ↔ MayRevoke requester s id
  nobody id e = (λ h. absurd (ground arith), λ m. absurd (ground (arith, (MayRevoke-cases m).1, e)))

  holds_test : ℕ → Bool
  holds_test p =
      (s.table p).owner_id == requester && not (bit_and (s.table p).permissions cap_revoke_bit == 0)

  Holds-sound : (p : ℕ) → holds_test p ≡ true → Holds requester s p
  unfolding holds_test
  Holds-sound p h = ground arith

  Holds-complete : (p : ℕ) → holds_test p ≡ false → ¬ Holds requester s p
  unfolding holds_test
  Holds-complete p h g = ground arith

  -- One step of the walk, from slot `p`, over what the rest of the walk says.
  from_slot :
      (id p : ℕ) (r : Option Bool)
      → resolve s id ≡ some p
      → Decides requester (s.table p).parent_cap s r
      → Decides requester id s (if holds_test p then some true else r)
  unfolding Decides
  from_slot id p r e (b, is, both) = elim (Bool-cases (holds_test p)) [
    | inl held ↦
        (true, rw held, (λ _. here p e (Holds-sound p held).0 (Holds-sound p held).1, λ _. refl))
    | inr not_held ↦ (
      b,
      rw not_held is,
      (
        λ yes_b. up p e (both.0 yes_b),
        λ m.
            let (q, e', next) = MayRevoke-cases m in
            let same : q ≡ p = ground (arith, e, e') in
            elim next [
              | inl g ↦ absurd (Holds-complete p not_held (subst (Holds requester s) same g))
              | inr above ↦
                  both.1 (subst (λ k. MayRevoke requester s (s.table k).parent_cap) same above)
            ],
      ),
    )
  ]

  authorized-Decides :
      (fuel id : ℕ)
      → 0 < fuel
      → ((p : ℕ) → resolve s id ≡ some p → v.rank p + 1 < fuel)
      → Decides requester id s (authorized fuel requester id s)
  unfolding authorized holds_test
  authorized-Decides zero id pos enough = absurd (omega arith)
  authorized-Decides (suc f) id pos enough = elim (Bool-cases (id == cap_id_invalid)) [
    | inl root ↦
        unfold Decides in (false, rw root, nobody id (resolve-invalid s id (ground (arith, root))))
    | inr other ↦ elim (Option-cases (resolve s id)) [
      | inl dead ↦ unfold Decides in (false, ground (arith, other, dead), nobody id dead)
      | inr (p, e) ↦
          let rest =
            authorized-Decides f (s.table p).parent_cap (omega (arith, enough p e)) (λ q above.
              omega (arith, enough p e, parent_older s v p q (resolve-some s id p e).2 above)) in
          rw (other, e, authorized)
            (from_slot id p (authorized f requester (s.table p).parent_cap s) e rest)
    ]
  ]

-- In a valid state the walk returns, and says yes exactly for a requester who may revoke.
pub authorized_lem :
    (requester id : ℕ) (s : System)
    → IsValid s
    → (b : Bool) × (authorized cascade_fuel requester id s ≡ some b)
      × ((b ≡ true) ↔ MayRevoke requester s id)
unfolding Decides
authorized_lem requester id s v =
    authorized-Decides requester s v.tree cascade_fuel id (omega arith) (λ p e.
      omega (arith, v.tree.ranked p (resolve-some s id p e).2, used-le max_capabilities s.table))
