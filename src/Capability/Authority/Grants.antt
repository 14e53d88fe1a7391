-- ===== src/Capability/Authority/Grants.antt =====
-- `cap_check` passes exactly when the handle is live and its capability grants the request.
use quantum_os.Prelude.{
  ℕ, ◌≡◌, ◌↔◌, false, some, refl, inl, inr, bit_and, arith, ◌∙◌, sym, Option-cases,
}
use quantum_os.Capability.State.{System, Capability, CapResult, success, resolve, is_expired}
use quantum_os.Capability.Check.{cap_check, check_verdict, counted}

-- The capability covers this request of this process at this tick.
pub record Grants (now pid rtype rid required : ℕ) (cap : Capability) : Type 0 where
  pub owner : cap.owner_id ≡ pid
  pub class : cap.resource_type ≡ rtype
  pub resource : cap.resource_id ≡ rid
  pub unexpired : is_expired now cap ≡ false
  pub bits : bit_and cap.permissions required ≡ required

pub check_verdict_sound :
    (now pid rtype rid required : ℕ) (cap : Capability)
    → check_verdict now cap pid rtype rid required ≡ success
    → Grants now pid rtype rid required cap
unfolding check_verdict
check_verdict_sound now pid rtype rid required cap h = ground arith

pub check_verdict_complete :
    (now pid rtype rid required : ℕ) (cap : Capability)
    → Grants now pid rtype rid required cap
    → check_verdict now cap pid rtype rid required ≡ success
unfolding check_verdict
check_verdict_complete now pid rtype rid required cap g = ground arith

counted_verdict : (s : System) (r : CapResult) → (counted s r).0 ≡ r
counted_verdict s success = refl
counted_verdict s r = refl

-- `cap_check` passes exactly when the handle resolves to a slot whose capability grants the request.
pub cap_check_iff :
    (now id pid rtype rid required : ℕ) (s : System)
    → ((cap_check now id pid rtype rid required s).0 ≡ success)
      ↔ ((i : ℕ) × (resolve s id ≡ some i) × Grants now pid rtype rid required (s.table i).cap)
unfolding cap_check
cap_check_iff now id pid rtype rid required s = (sound, complete)
  where
    sound :
        (cap_check now id pid rtype rid required s).0 ≡ success
        → (i : ℕ) × (resolve s id ≡ some i) × Grants now pid rtype rid required (s.table i).cap
    sound h = elim (Option-cases (resolve s id)) [
      | inl stale ↦ absurd (ground (arith, stale))
      | inr (i, e) ↦
          let verdict = check_verdict now (s.table i).cap pid rtype rid required in
          (
            i,
            e,
            check_verdict_sound now pid rtype rid required (s.table i).cap
                (sym (counted_verdict s verdict) ∙ (rw (e, cap_check) at h)),
          )
    ]

    complete :
        (i : ℕ) × (resolve s id ≡ some i) × Grants now pid rtype rid required (s.table i).cap
        → (cap_check now id pid rtype rid required s).0 ≡ success
    complete (i, e, g) =
        let verdict = check_verdict now (s.table i).cap pid rtype rid required in
        rw (e, cap_check)
          (counted_verdict s verdict
            ∙ check_verdict_complete now pid rtype rid required (s.table i).cap g)
