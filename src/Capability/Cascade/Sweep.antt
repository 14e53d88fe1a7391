-- ===== src/Capability/Cascade/Sweep.antt =====
-- One of the three loops, over a cascade that is known to do its part.
use quantum_os.Prelude.{
  ℕ, ◌≡◌, ◌⊎◌, Bool, true, false, inl, inr, ◌∙◌, ap, subst, arith, Bool-cases, ◌==◌,
}
use quantum_os.Capability.State.{System, Slot, freed}
use quantum_os.Capability.Revoke.{is_child_of, release}
use quantum_os.Capability.Invariant.{IsValid}
use quantum_os.Capability.Cascade.Shrink.{Below, Shrinks}
use quantum_os.Capability.Cascade.Release.{release-IsValid, table-release}

-- What a loop leaves: matching slots and those below them freed, none that matches left.
pub record Swept (match : Slot → Bool) (s s' : System) : Type 0 where
  pub valid : IsValid s'
  pub slots : Shrinks (Below s.table match) s.table s'.table
  pub none_left : (j : ℕ) → match (s'.table j) ≡ false
  pub hwm_kept : s'.hwm ≡ s.hwm
  pub initialized_kept : s'.initialized ≡ s.initialized

-- Slot `i`, unchanged by the cascade from its handle, is then released.
module _ (now kind owner i : ℕ) (s s1 : System) (v : IsValid s) (live : (s.table i).in_use ≡ true)
    (sw : Swept (is_child_of (s.table i).cap_id) s s1) (same : s1.table i ≡ s.table i) where
  abbrev released : System
  released = release now kind owner i s1

  pub released-IsValid : IsValid released
  unfolding is_child_of
  released-IsValid =
      release-IsValid now kind owner i s1 sw.valid (ap (λ x. x.in_use) same ∙ live)
        (λ j u e. ground (arith, sw.none_left j, same))

  -- What goes is the slot and what derives from it.
  abbrev pub Gone : ℕ → Type 0
  Gone j = (i ≡ j) ⊎ Below s.table (is_child_of (s.table i).cap_id) j

  pub released_here : (j : ℕ) → (i == j) ≡ true → released.table j ≡ freed (s.table j)
  released_here j e = rw (table-release, e) (ground (arith, same, e))

  released_there : (j : ℕ) → (i == j) ≡ false → released.table j ≡ s1.table j
  released_there j e = rw (table-release, e)

  pub released-Shrinks : Shrinks Gone s.table released.table
  released-Shrinks j = elim (Bool-cases (i == j)) [
    | inl here ↦
        let e : i ≡ j = ground (arith, here) in
        inr (inl e, subst (λ k. (s.table k).in_use ≡ true) e live, released_here j here)
    | inr there ↦ elim (sw.slots j) [
      | inl kept ↦ inl (released_there j there ∙ kept)
      | inr (b, was, gone) ↦ inr (inr b, was, released_there j there ∙ gone)
    ]
  ]
