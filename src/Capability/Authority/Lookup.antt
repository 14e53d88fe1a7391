-- ===== src/Capability/Authority/Lookup.antt =====
-- The lookups below the high-water mark against the whole table.
use quantum_os.Prelude.{
  ℕ, ◌≡◌, ◌↔◌, ◌⊎◌, true, Option, none, some, inl, inr, arith, Option-cases, find_first,
  find_first-some, find_first-none,
}
use quantum_os.Capability.State.{System, success, denied}
use quantum_os.Capability.Find.{grants_resource, cap_find_resource, cap_find_id}
use quantum_os.Capability.Check.{cap_check}
use quantum_os.Capability.Invariant.{IsValid}
use quantum_os.Capability.Handles.{resolve-live, resolve-some}
use quantum_os.Capability.Authority.Grants.{Grants, cap_check_iff}

module _ (now pid rtype required rid : ℕ) (s : System) where
  grants_resource_sound :
      (i : ℕ)
      → grants_resource now pid rtype required rid s i ≡ true
      → ((s.table i).in_use ≡ true) × Grants now pid rtype rid required (s.table i).cap
  unfolding grants_resource
  grants_resource_sound i h = ground arith

  grants_resource_complete :
      (i : ℕ)
      → (s.table i).in_use ≡ true
      → Grants now pid rtype rid required (s.table i).cap
      → grants_resource now pid rtype required rid s i ≡ true
  unfolding grants_resource
  grants_resource_complete i u g = ground arith

  abbrev scan : Option ℕ
  scan = find_first s.hwm 0 (grants_resource now pid rtype required rid s)

  pub cap_find_resource-cases :
      (cap_find_resource now pid rtype required rid s ≡ success)
      ⊎ (cap_find_resource now pid rtype required rid s ≡ denied)
  unfolding cap_find_resource
  cap_find_resource-cases = elim (Option-cases scan) [
    | inl missed ↦ inr (rw (missed, cap_find_resource))
    | inr (i, e) ↦ inl (rw (e, cap_find_resource))
  ]

  pub cap_find_id-cases :
      ((id : ℕ) × (cap_find_id now pid rtype required rid true s ≡ (success, some id)))
      ⊎ (cap_find_id now pid rtype required rid true s ≡ (denied, none))
  unfolding cap_find_id
  cap_find_id-cases = elim (Option-cases scan) [
    | inl missed ↦ inr (rw (missed, cap_find_id))
    | inr (i, e) ↦ inl ((s.table i).cap_id, rw (e, cap_find_id))
  ]

  -- The scan below the mark misses no capability of the table.
  scan_complete :
      (i : ℕ)
      → IsValid s
      → (s.table i).in_use ≡ true
      → Grants now pid rtype rid required (s.table i).cap
      → (k : ℕ) × (scan ≡ some k)
  scan_complete i v u g = elim (Option-cases scan) [
    | inl missed ↦ absurd (
        ground (
          arith,
          grants_resource_complete i u g,
          find_first-none s.hwm 0 (grants_resource now pid rtype required rid s) i missed
              (omega arith) (omega (arith, v.below i u)),
        ))
    | inr found ↦ found
  ]

  found_slot :
      (i : ℕ)
      → scan ≡ some i
      → ((s.table i).in_use ≡ true) × Grants now pid rtype rid required (s.table i).cap
  found_slot i e =
      grants_resource_sound i
        (find_first-some s.hwm 0 (grants_resource now pid rtype required rid s) e).0

  pub cap_find_id-found :
      {o : Option ℕ}
      → cap_find_id now pid rtype required rid true s ≡ (success, o)
      → (i : ℕ) × (o ≡ some (s.table i).cap_id)
        × ((s.table i).in_use ≡ true)
        × Grants now pid rtype rid required (s.table i).cap
  unfolding cap_find_id
  cap_find_id-found e = elim (Option-cases scan) [
    | inl missed ↦ absurd (ground (arith, missed))
    | inr (i, at) ↦ let (u, g) = found_slot i at in (i, ground (arith, at), u, g)
  ]

  -- In a valid state `cap_find_resource` succeeds exactly when some slot of the whole table is in use
  -- and grants the request, although it scans only below the high-water mark.
  pub cap_find_resource_iff :
      IsValid s
      → (cap_find_resource now pid rtype required rid s ≡ success) ↔ (
          (i : ℕ) × ((s.table i).in_use ≡ true) × Grants now pid rtype rid required (s.table i).cap)
  unfolding cap_find_resource
  cap_find_resource_iff v = (sound, complete)
    where
      sound :
          cap_find_resource now pid rtype required rid s ≡ success
          → (i : ℕ) × ((s.table i).in_use ≡ true)
            × Grants now pid rtype rid required (s.table i).cap
      sound h = elim (Option-cases scan) [
        | inl missed ↦ absurd (ground (arith, missed))
        | inr (i, e) ↦ let (u, g) = found_slot i e in (i, u, g)
      ]

      complete :
          (i : ℕ) × ((s.table i).in_use ≡ true) × Grants now pid rtype rid required (s.table i).cap
          → cap_find_resource now pid rtype required rid s ≡ success
      complete (i, u, g) = let (k, e) = scan_complete i v u g in rw (e, cap_find_resource)

  -- In a valid state some handle passes `cap_check` for a request exactly when `cap_find_id` writes
  -- out a handle for it, and the handle written out passes.
  pub cap_find_id_iff :
      IsValid s
      → ((id : ℕ) × ((cap_check now id pid rtype rid required s).0 ≡ success)) ↔ (
          (k : ℕ) × (cap_find_id now pid rtype required rid true s ≡ (success, some k))
          × ((cap_check now k pid rtype rid required s).0 ≡ success))
  unfolding cap_find_id
  cap_find_id_iff v = (
    λ (id, h).
        let (i, e, g) = (cap_check_iff now id pid rtype rid required s).0 h in
        let (k, found) = scan_complete i v (resolve-some s id i e).2 g in
        let (live, g') = found_slot k found in
        (
          (s.table k).cap_id,
          rw (found, cap_find_id),
          (cap_check_iff now (s.table k).cap_id pid rtype rid required s).1
              (k, resolve-live s k v.tree live, g'),
        ),
    λ (k, e, h). (k, h),
  )
