-- ===== src/Syscall/Authority.antt =====
-- `authorize` against what the capability table and the manifests say.
use quantum_os.Prelude.{ℕ, ◌≡◌, ◌↔◌, true, inl, inr, arith, Bool-cases, sym, ◌∙◌}
use quantum_os.Capability.State.{success}
use quantum_os.Capability.Find.{cap_find_resource}
use quantum_os.Capability.Invariant.{IsValid}
use quantum_os.Capability.Authority.Grants.{Grants}
use quantum_os.Capability.Authority.Lookup.{cap_find_resource_iff, cap_find_resource-cases}
use quantum_os.Manifest.Table.{allows, manifest_check}
use quantum_os.Manifest.Declares.{Declares, allows_iff}
use quantum_os.Syscall.Gate.{Kernel, authorize, declared}

pub declared_verdict :
    (now pid rtype rid perms : ℕ) (k : Kernel)
    → (declared now pid rtype rid perms k).0 ≡ allows pid rtype rid k.intents
unfolding manifest_check
declared_verdict now pid rtype rid perms k = elim (Bool-cases (allows pid rtype rid k.intents)) [
  | inl passes ↦ rw passes
  | inr missed ↦ rw missed
]

module _ (now pid rtype perm rid : ℕ) (k : Kernel) where
  pub authorize-both : ((authorize now pid rtype perm rid k).0 ≡ true) ↔ (
      (cap_find_resource now pid rtype perm rid k.caps ≡ success)
      × (allows pid rtype rid k.intents ≡ true))
  unfolding authorize
  authorize-both = elim (cap_find_resource-cases now pid rtype perm rid k.caps) [
    | inl held ↦ (
      λ h. (held, sym (declared_verdict now pid rtype rid perm k) ∙ (rw (held, authorize) at h)),
      λ (h, ok). rw (held, authorize) (declared_verdict now pid rtype rid perm k ∙ ok),
    )
    | inr missing ↦
        (λ h. absurd (ground (arith, missing)), λ (h, ok). absurd (ground (arith, missing)))
  ]

  -- In a valid state `authorize` lets an operation pass exactly when some slot of the whole table is
  -- in use and grants the request to the process, and its manifest, if it has one bound, has a row
  -- on the resource.
  pub authorize_iff :
      IsValid k.caps
      → ((authorize now pid rtype perm rid k).0 ≡ true) ↔ (
          ((i : ℕ) × ((k.caps.table i).in_use ≡ true)
            × Grants now pid rtype rid perm (k.caps.table i).cap)
          × Declares pid rtype rid k.intents)
  authorize_iff v = (
    λ h.
        let (held, ok) = authorize-both.0 h in
        (
          (cap_find_resource_iff now pid rtype perm rid k.caps v).0 held,
          (allows_iff pid rtype rid k.intents).0 ok,
        ),
    λ (g, d). authorize-both.1 (
      (cap_find_resource_iff now pid rtype perm rid k.caps v).1 g,
      (allows_iff pid rtype rid k.intents).1 d,
    ),
  )
