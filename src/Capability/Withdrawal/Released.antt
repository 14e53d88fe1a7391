-- ===== src/Capability/Withdrawal/Released.antt =====
-- A slot released after its children: exactly the slot and what derives from it is freed.
use quantum_os.Prelude.{
  ℕ, ◌<◌, ◌≡◌, ◌⊎◌, ◌^◌, Bool, true, false, ◌&&◌, some, refl, inl, inr, arith, Bool-cases, ◌==◌,
  sym, ◌∙◌, ap, subst,
}
use quantum_os.Audit.Kind
use quantum_os.Capability.State.{System, Slot, success, resolve}
use quantum_os.Capability.Revoke.{is_child_of, release}
use quantum_os.Capability.Withdraw.{revoke_slot}
use quantum_os.Capability.Invariant.{IsValid}
use quantum_os.Capability.Invariant.Tree.{ids_distinct}
use quantum_os.Capability.Handles.{resolve-some, resolve-cap_id}
use quantum_os.Capability.Cascade.Shrink.{Below, hit, Shrinks, Shrinks-in_use}
use quantum_os.Capability.Cascade.Below.{Below-under, Below-rank}
use quantum_os.Capability.Cascade.Release.{hwm-release, initialized-release}
use quantum_os.Capability.Cascade.Sweep.{Swept, released-IsValid, released-Shrinks, released_here}
use quantum_os.Capability.Cascade.Exact.{RevokesExactly, Swept-exactly}
use quantum_os.Capability.Cascade.Total.{revoke_children_of-Swept, tree_Ranked}

-- The live slot that carries a handle.
unfoldable pub carries : ℕ → Slot → Bool
carries id slot = slot.in_use && slot.cap_id == id

carries-in_use : (id : ℕ) (slot : Slot) → carries id slot ≡ true → slot.in_use ≡ true
unfolding carries
carries-in_use id slot h = ground arith

carries-cap_id : (id : ℕ) (slot : Slot) → carries id slot ≡ true → slot.cap_id ≡ id
unfolding carries
carries-cap_id id slot h = ground arith

module _ (now kind owner i : ℕ) (s s1 : System) (v : IsValid s) (live : (s.table i).in_use ≡ true)
    (sw : Swept (is_child_of (s.table i).cap_id) s s1) where
  no_self : s1.table i ≡ s.table i
  no_self = elim (sw.slots i) [
    | inl kept ↦ kept
    | inr (b, was, gone) ↦ absurd (omega (arith, Below-rank i (tree_Ranked v) live b))
  ]

  abbrev rest : System
  rest = release now kind owner i s1

  carried : carries (s.table i).cap_id (s.table i) ≡ true
  unfolding carries
  carried = ground (arith, live)

  shrinks : Shrinks (Below s.table (carries (s.table i).cap_id)) s.table rest.table
  shrinks j = elim (released-Shrinks now kind owner i s s1 v live sw no_self j) [
    | inl same ↦ inl same
    | inr (why, was, gone) ↦ inr (wider why, was, gone)
  ]
    where
      wider :
          (i ≡ j) ⊎ Below s.table (is_child_of (s.table i).cap_id) j
          → Below s.table (carries (s.table i).cap_id) j
      wider (inl e) = subst (Below s.table (carries (s.table i).cap_id)) e (hit carried)
      wider (inr b) =
          Below-under {D = λ _. Unit {0}} s.table s.table i (λ k. inl refl) live (hit carried) b

  none_carries : (j : ℕ) → carries (s.table i).cap_id (rest.table j) ≡ false
  none_carries j = elim (Bool-cases (carries (s.table i).cap_id (rest.table j))) [
    | inr miss ↦ miss
    | inl found ↦
        let u = carries-in_use (s.table i).cap_id (rest.table j) found in
        let same = Shrinks-in_use s.table rest.table shrinks j u in
        let was : (s.table j).in_use ≡ true = sym (ap (λ x. x.in_use) same) ∙ u in
        let one : j ≡ i = ids_distinct v.tree j i was live (
          sym (ap (λ x. x.cap_id) same) ∙ carries-cap_id (s.table i).cap_id (rest.table j) found) in
        let gone = released_here now kind owner i s s1 v live sw no_self j (ground (arith, one)) in
        absurd (ground (arith, gone, u))
  ]

  released-exactly : RevokesExactly (carries (s.table i).cap_id) s rest
  released-exactly =
      Swept-exactly (carries (s.table i).cap_id) (carries-in_use (s.table i).cap_id) s rest v.tree
        (record {
          valid = released-IsValid now kind owner i s s1 v live sw no_self;
          slots = shrinks;
          none_left = none_carries;
          hwm_kept = hwm-release now kind owner i s1 ∙ sw.hwm_kept;
          initialized_kept = initialized-release now kind owner i s1 ∙ sw.initialized_kept;
        })

pub revoke_slot_lem :
    (now id i : ℕ) (s : System)
    → IsValid s
    → id < 2 ^ 32
    → resolve s id ≡ some i
    → (s' : System) × (revoke_slot now id i s ≡ some (success, s'))
      × RevokesExactly (carries id) s s'
unfolding revoke_slot
revoke_slot_lem now id i s v small e =
    let live = (resolve-some s id i e).2 in
    let is : (s.table i).cap_id ≡ id = resolve-cap_id s id i v.tree small e in
    let (s1, q, sw) = revoke_children_of-Swept now Kind.revoke id s v in
    let sw' : Swept (is_child_of (s.table i).cap_id) s s1 =
      subst (λ k. Swept (is_child_of k) s s1) (sym is) sw in
    (
      release now Kind.revoke (s1.table i).owner_id i s1,
      rw q,
      subst (λ k. RevokesExactly (carries k) s (release now Kind.revoke (s1.table i).owner_id i s1))
          is (released-exactly now Kind.revoke (s1.table i).owner_id i s s1 v live sw'),
    )
