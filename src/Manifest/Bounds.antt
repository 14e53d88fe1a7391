-- ===== src/Manifest/Bounds.antt =====
-- No manifest claims more rows than its array has, and a granted row lands inside the array.
use quantum_os.Prelude.{
  ℕ, ◌⊎◌, ◌≤◌, ◌≡◌, true, Option, none, some, List, [], ◌∷◌, inl, inr, arith, Option-cases,
}
use quantum_os.Manifest.Table.{
  Manifest, Intents, max_entries, manifest_bind, manifest_clear, manifest_grant, grant_row,
  append_row, row_of,
}
use quantum_os.Manifest.Quota.{manifest_spawn_charge, manifest_qsub_charge, manifest_tick}

-- The calls that change the table.
pub data Change : Type 0 where
  binds : ℕ → Option Manifest → Change
  clears spawns submits ticks : ℕ → Change
  grants : ℕ → ℕ → ℕ → ℕ → Change

unfoldable pub apply : Change → Intents → Intents
apply (binds pid m) t = manifest_bind pid m t
apply (clears pid) t = manifest_clear pid t
apply (spawns pid) t = manifest_spawn_charge pid t
apply (submits pid) t = manifest_qsub_charge pid t
apply (ticks pid) t = manifest_tick pid t
apply (grants pid rtype rid perms) t = (manifest_grant pid rtype rid perms t).1

unfoldable pub apply_all : List Change → Intents → Intents
apply_all [] t = t
apply_all (c ∷ cs) t = apply_all cs (apply c t)

-- Within the array, and no row where there is no manifest.
pub record IsValid (m : Manifest) : Type 0 where
  pub fits : m.entry_count ≤ max_entries
  pub unbound : (m.bound ≡ true) ⊎ (m.entry_count ≡ 0)

pub grant_row-IsValid :
    (rtype rid perms : ℕ) (m : Manifest) → IsValid m → IsValid (grant_row rtype rid perms m).1
unfolding grant_row append_row
grant_row-IsValid rtype rid perms m v = elim (Option-cases (row_of rtype rid m)) [
  | inl missing ↦ ground (arith, missing)
  | inr (i, there) ↦ ground (arith, there)
]

bind-IsValid :
    (pid : ℕ) (m : Option Manifest) (t : Intents) (p : ℕ)
    → IsValid (t p)
    → IsValid (manifest_bind pid m t p)
unfolding manifest_bind
bind-IsValid pid none t p v = v
bind-IsValid pid (some m) t p v = ground arith

grant-IsValid :
    (pid rtype rid perms : ℕ) (t : Intents) (p : ℕ)
    → ((q : ℕ) → IsValid (t q))
    → IsValid ((manifest_grant pid rtype rid perms t).1 p)
unfolding manifest_grant
grant-IsValid pid rtype rid perms t p v =
    ground (arith, v p, grant_row-IsValid rtype rid perms (t pid) (v pid))

apply-IsValid :
    (c : Change) (t : Intents) (p : ℕ) → ((q : ℕ) → IsValid (t q)) → IsValid (apply c t p)
unfolding apply manifest_clear manifest_spawn_charge manifest_qsub_charge manifest_tick
apply-IsValid (binds pid m) t p v = bind-IsValid pid m t p (v p)
apply-IsValid (clears pid) t p v = ground (arith, v p)
apply-IsValid (spawns pid) t p v = ground (arith, v p, v pid)
apply-IsValid (submits pid) t p v = ground (arith, v p, v pid)
apply-IsValid (ticks pid) t p v = ground (arith, v p, v pid)
apply-IsValid (grants pid rtype rid perms) t p v = grant-IsValid pid rtype rid perms t p v

-- Whatever calls are made, from a table in which every manifest fits its array (the zeroed table at
-- boot is one), every manifest still does: `entries[entry_count]` is written inside the array only,
-- the byte that counts rows does not wrap, and an unbound manifest has no rows.
pub apply_all-IsValid :
    (cs : List Change) (t : Intents)
    → ((q : ℕ) → IsValid (t q))
    → (p : ℕ) → IsValid (apply_all cs t p)
unfolding apply_all
apply_all-IsValid [] t v p = v p
apply_all-IsValid (c ∷ cs) t v p = apply_all-IsValid cs (apply c t) (λ q. apply-IsValid c t q v) p
