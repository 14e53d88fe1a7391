-- ===== src/Capability/Cascade/Loop.antt =====
-- The whole loop: it returns, it frees what it should and nothing else.
use quantum_os.Prelude.{
  ℕ, zero, suc, ◌+◌, ◌<◌, ◌≡◌, Bool, true, false, Option, some, refl, inl, inr, ◌∙◌, subst, arith,
  Bool-cases, ◌==◌,
}
use quantum_os.Capability.State.{System, Slot, max_capabilities}
use quantum_os.Capability.Revoke.{sweep_step, sweep, is_child_of, release}
use quantum_os.Capability.Invariant.{IsValid}
use quantum_os.Capability.Cascade.Shrink.{Below, hit, Shrinks, Shrinks-trans, Shrinks-match}
use quantum_os.Capability.Cascade.Below.{Ranked, Shrinks-Ranked, Below-rank, Below-under}
use quantum_os.Capability.Cascade.Release.{hwm-release, initialized-release}
use quantum_os.Capability.Cascade.Sweep.{
  Swept, Gone, released-IsValid, released-Shrinks, released_here,
}

-- The loop from slot 0 up to `upto`, begun at `s0`.
record Going (match : Slot → Bool) (s0 : System) (upto : ℕ) (s : System) : Type 0 where
  valid : IsValid s
  slots : Shrinks (Below s0.table match) s0.table s.table
  swept : (j : ℕ) → j < upto → match (s.table j) ≡ false
  hwm_kept : s.hwm ≡ s0.hwm
  initialized_kept : s.initialized ≡ s0.initialized

module _ (match : Slot → Bool) (uses : (slot : Slot) → match slot ≡ true → slot.in_use ≡ true)
    (rank : ℕ → ℕ) (bound : ℕ) (Q : ℕ → Type 0) (now kind : ℕ)
    (cascade : ℕ → System → Option System)
    (cascades : (s : System)
      → IsValid s
      → Ranked rank bound s.table
      → (i : ℕ) → (s.table i).in_use ≡ true
      → Q i
      → (s1 : System) × (cascade (s.table i).cap_id s ≡ some s1)
        × Swept (is_child_of (s.table i).cap_id) s s1)
    (s0 : System) (ranked : Ranked rank bound s0.table)
    (good : (j : ℕ) → match (s0.table j) ≡ true → Q j) where
  -- What no slot passed, no slot passes later.
  still_false :
      {D : ℕ → Type 0} (t u : ℕ → Slot)
      → Shrinks D t u
      → (j : ℕ) → match (t j) ≡ false
      → match (u j) ≡ false
  still_false t u h j miss = elim (Bool-cases (match (u j))) [
    | inl m ↦ absurd (ground (arith, Shrinks-match t u match uses h j m, miss))
    | inr no_match ↦ no_match
  ]

  -- A slot that matched, its cascade done, and its release.
  advance :
      (i : ℕ) (s s1 : System)
      → Going match s0 i s
      → match (s.table i) ≡ true
      → Swept (is_child_of (s.table i).cap_id) s s1
      → Going match s0 (i + 1) (release now kind (s1.table i).owner_id i s1)
  advance i s s1 g m sw = record {
    valid = released-IsValid now kind owner i s s1 g.valid live sw same;
    slots = Shrinks-trans s0.table s.table rest.table g.slots shrinks wider;
    swept = λ j h. elim (Bool-cases (i == j)) [
      | inl here ↦ gone_at j here
      | inr there ↦ still_false s.table rest.table shrinks j (g.swept j (ground (arith, there)))
    ];
    hwm_kept = hwm-release now kind owner i s1 ∙ sw.hwm_kept ∙ g.hwm_kept;
    initialized_kept =
        initialized-release now kind owner i s1 ∙ sw.initialized_kept ∙ g.initialized_kept;
  }
    where
      owner : ℕ
      owner = (s1.table i).owner_id

      rest : System
      rest = release now kind owner i s1

      live : (s.table i).in_use ≡ true
      live = uses (s.table i) m

      same : s1.table i ≡ s.table i
      same = elim (sw.slots i) [
        | inl kept ↦ kept
        | inr (b, was, gone) ↦
            absurd
              (omega (arith, Below-rank i (Shrinks-Ranked s0.table s.table g.slots ranked) live b))
      ]

      shrinks : Shrinks (Gone now kind owner i s s1 g.valid live sw same) s.table rest.table
      shrinks = released-Shrinks now kind owner i s s1 g.valid live sw same

      wider :
          (j : ℕ)
          → (s.table j).in_use ≡ true
          → Gone now kind owner i s s1 g.valid live sw same j
          → Below s0.table match j
      wider j u (inl e) = hit (
          Shrinks-match s0.table s.table match uses g.slots j
            (subst (λ k. match (s.table k) ≡ true) e m))
      wider j u (inr b) =
          Below-under s0.table s.table i g.slots live
            (hit (Shrinks-match s0.table s.table match uses g.slots i m)) b

      gone_at : (j : ℕ) → (i == j) ≡ true → match (rest.table j) ≡ false
      gone_at j here = elim (Bool-cases (match (rest.table j))) [
        | inl again ↦ absurd (
            ground (
              arith,
              uses (rest.table j) again,
              released_here now kind owner i s s1 g.valid live sw same j here,
            ))
        | inr missed ↦ missed
      ]

  step_Going :
      (i : ℕ) (s : System)
      → Going match s0 i s
      → (s' : System) × (sweep_step match cascade now kind i s ≡ some s')
        × Going match s0 (i + 1) s'
  unfolding sweep_step
  step_Going i s g = elim (Bool-cases (match (s.table i))) [
    | inl m ↦
        let live = uses (s.table i) m in
        let r = Shrinks-Ranked s0.table s.table g.slots ranked in
        let m0 = Shrinks-match s0.table s.table match uses g.slots i m in
        let (s1, e, sw) = cascades s g.valid r i live (good i m0) in
        (release now kind (s1.table i).owner_id i s1, rw (m, e), advance i s s1 g m sw)
    | inr miss ↦ (
      s,
      rw miss,
      record {
        valid = g.valid;
        slots = g.slots;
        swept = λ j h. elim (Bool-cases (i == j)) [
          | inl here ↦ subst (λ k. match (s.table k) ≡ false) (ground (arith, here)) miss
          | inr there ↦ g.swept j (ground (arith, there))
        ];
        hwm_kept = g.hwm_kept;
        initialized_kept = g.initialized_kept;
      },
    )
  ]

  sweep-Going :
      (n i upto : ℕ) (s : System)
      → i + n ≡ upto
      → Going match s0 i s
      → (s' : System) × (sweep match cascade now kind n i s ≡ some s') × Going match s0 upto s'
  unfolding sweep
  sweep-Going zero i upto s e g = (s, refl, subst (λ k. Going match s0 k s) (omega arith) g)
  sweep-Going (suc n) i upto s e g =
      let (s1, p, g1) = step_Going i s g in
      let (s2, q, g2) = sweep-Going n (i + 1) upto s1 (omega arith) g1 in (s2, rw p q, g2)

  -- The loop over the whole table returns, and leaves what it should.
  pub sweep-Swept :
      IsValid s0
      → (s' : System) × (sweep match cascade now kind max_capabilities 0 s0 ≡ some s')
        × Swept match s0 s'
  sweep-Swept v =
      let begun : Going match s0 0 s0 = record {
        valid = v;
        slots = λ j. inl refl;
        swept = λ j h. absurd (omega arith);
        hwm_kept = refl;
        initialized_kept = refl;
      } in
      let (s', e, g) = sweep-Going max_capabilities 0 max_capabilities s0 refl begun in
      (
        s',
        e,
        record {
          valid = g.valid;
          slots = g.slots;
          none_left = λ j. elim (Bool-cases (match (s'.table j))) [
            | inl m ↦ g.swept j (g.valid.tree.bounded j (uses (s'.table j) m))
            | inr miss ↦ miss
          ];
          hwm_kept = g.hwm_kept;
          initialized_kept = g.initialized_kept;
        },
      )
