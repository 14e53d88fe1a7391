-- ===== src/Manifest/Declares.antt =====
-- The verdict of a manifest against the rows it declares.
use quantum_os.Prelude.{
  ℕ, ◌<◌, ◌≤◌, ◌≡◌, ◌↔◌, ◌⊎◌, Bool, true, false, inl, inr, arith, Option-cases, Bool-cases,
  find_first-some, find_first-none, leb, ◌==◌, ◌&&◌,
}
use quantum_os.Manifest.Table.{Manifest, Intents, max_processes, row_of, allows}

-- A row of the manifest is on the resource.
abbrev pub RowOn : ℕ → ℕ → Manifest → Type 0
RowOn rtype rid m =
    (i : ℕ) × (i < m.entry_count)
    × ((m.entries i).resource_type ≡ rtype)
    × ((m.entries i).resource_id ≡ rid)

-- The process has no manifest, or one with a row on the resource.
abbrev pub Declares : ℕ → ℕ → ℕ → Intents → Type 0
Declares pid rtype rid t =
    (max_processes ≤ pid) ⊎ (((t pid).bound ≡ false) ⊎ RowOn rtype rid (t pid))

abbrev on : ℕ → ℕ → Manifest → ℕ → Bool
on rtype rid m j = (m.entries j).resource_type == rtype && (m.entries j).resource_id == rid

pub allows_iff :
    (pid rtype rid : ℕ) (t : Intents) → (allows pid rtype rid t ≡ true) ↔ Declares pid rtype rid t
unfolding allows row_of
allows_iff pid rtype rid t = (sound, complete)
  where
    n : ℕ
    n = (t pid).entry_count

    sound : allows pid rtype rid t ≡ true → Declares pid rtype rid t
    sound h = elim (Bool-cases (leb max_processes pid)) [
      | inl out ↦ inl (ground (arith, out))
      | inr inside ↦ elim (Bool-cases (t pid).bound) [
        | inr unbound ↦ inr (inl unbound)
        | inl bound ↦ elim (Option-cases (row_of rtype rid (t pid))) [
          | inl missing ↦ absurd (ground (arith, inside, bound, missing))
          | inr (i, at) ↦
              let (hit, lo, hi) = find_first-some n 0 (on rtype rid (t pid)) at in
              inr (inr (i, omega arith, ground (arith, hit), ground (arith, hit)))
        ]
      ]
    ]

    complete : Declares pid rtype rid t → allows pid rtype rid t ≡ true
    complete (inl out) = ground (arith, out)
    complete (inr (inl unbound)) = ground (arith, unbound)
    complete (inr (inr (i, lt, rt, ri))) = elim (Option-cases (row_of rtype rid (t pid))) [
      | inr (k, there) ↦ ground (arith, there)
      | inl missing ↦ absurd (
          ground (
            arith,
            rt,
            ri,
            find_first-none n 0 (on rtype rid (t pid)) i missing (omega arith) (omega arith),
          ))
    ]
