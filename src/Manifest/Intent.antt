-- ===== src/Manifest/Intent.antt =====
-- What the rows of a manifest allow, and what a granted row adds to it.
use quantum_os.Prelude.{
  ℕ, suc, ◌+◌, ◌%◌, ◌^◌, ◌<◌, ◌≡◌, Bool, true, false, not, ◌&&◌, ◌||◌, Option, none, some, refl, ap,
  ◌∙◌, sym, inl, inr, arith, Option-cases, Bool-cases, ltb, leb, ltb→lt, subst, ◌==◌, if◌then◌else◌,
  update, find_first, find_first_ext, find_first-suc, or_at,
}
use quantum_os.Manifest.Table.{
  Manifest, Row, Intents, max_entries, max_processes, manifest_grant, manifest_has_room, grant_row,
  append_row, row_of, allows,
}

abbrev on : ℕ → ℕ → Row → Bool
on rtype rid row = row.resource_type == rtype && row.resource_id == rid

-- Whether a manifest has a row on a resource.
unfoldable pub has_row : ℕ → ℕ → Manifest → Bool
has_row rtype rid m = elim (row_of rtype rid m) [ none ↦ false | some i ↦ true ]

-- After a row is appended: the old rows are found first, then the new one.
row_of-append :
    (rtype rid perms rtype' rid' : ℕ) (m : Manifest)
    → m.entry_count < max_entries
    → row_of rtype' rid' (append_row rtype rid perms m)
      ≡ or_at (row_of rtype' rid' m) (λ _. rtype == rtype' && rid == rid') m.entry_count
unfolding row_of append_row
row_of-append rtype rid perms rtype' rid' m room =
    ap (λ k. find_first k 0 test) grown
    ∙ find_first-suc n 0 test
    ∙ ap (λ o. or_at o test (0 + n)) same
    ∙ last (find_first n 0 old)
  where
    n : ℕ
    n = m.entry_count

    old : ℕ → Bool
    old i = on rtype' rid' (m.entries i)

    test : ℕ → Bool
    test i = on rtype' rid' (
        update m.entries n
          (record { resource_type = rtype; resource_id = rid; permissions = perms }) i)

    grown : (n + 1) % 2 ^ 8 ≡ suc n
    grown = omega arith

    same : find_first n 0 test ≡ find_first n 0 old
    same = find_first_ext n 0 test old (λ j lo hi. ground arith)

    here : test (0 + n) ≡ (rtype == rtype' && rid == rid')
    here = ground arith

    last : (o : Option ℕ) → or_at o test (0 + n) ≡ or_at o (λ _. rtype == rtype' && rid == rid') n
    last (some k) = refl
    last none =
        rw here (ap (λ k. if rtype == rtype' && rid == rid' then some k else none) (omega arith))

has_row-append :
    (rtype rid perms rtype' rid' : ℕ) (m : Manifest)
    → m.entry_count < max_entries
    → has_row rtype' rid' (append_row rtype rid perms m)
      ≡ (has_row rtype' rid' m || (rtype == rtype' && rid == rid'))
unfolding has_row
has_row-append rtype rid perms rtype' rid' m room =
    ground (arith, row_of-append rtype rid perms rtype' rid' m room)

has_row_self :
    (rtype rid rtype' rid' i : ℕ) (m : Manifest)
    → row_of rtype rid m ≡ some i
    → has_row rtype' rid' m ≡ (has_row rtype' rid' m || (rtype == rtype' && rid == rid'))
unfolding has_row
has_row_self rtype rid rtype' rid' i m e = elim (Bool-cases (rtype == rtype' && rid == rid')) [
  | inr other ↦ ground (arith, other)
  | inl same ↦
      let r : rtype ≡ rtype' = ground (arith, same) in
      let q : rid ≡ rid' = ground (arith, same) in
      let e' : row_of rtype' rid' m ≡ some i =
        subst (λ k. row_of rtype' k m ≡ some i) q (subst (λ k. row_of k rid m ≡ some i) r e) in
      ground (arith, e')
]

-- What a grant that is accepted leaves a manifest with.
abbrev Grown : ℕ → ℕ → ℕ → ℕ → Manifest → Manifest → Type 0
Grown rtype rid rtype' rid' m m' =
    (m.bound ≡ true)
    × (m'.bound ≡ true)
    × (has_row rtype' rid' m' ≡ (has_row rtype' rid' m || (rtype == rtype' && rid == rid')))

append_row-bound :
    (rtype rid perms : ℕ) (m : Manifest) → (append_row rtype rid perms m).bound ≡ m.bound
unfolding append_row
append_row-bound rtype rid perms m = refl

grant_row-Grown :
    (rtype rid perms rtype' rid' : ℕ) (m m' : Manifest)
    → grant_row rtype rid perms m ≡ (true, m')
    → Grown rtype rid rtype' rid' m m'
unfolding grant_row
grant_row-Grown rtype rid perms rtype' rid' m m' e = elim (Bool-cases m.bound) [
  | inr unbound ↦ absurd (ground (arith, unbound))
  | inl bound ↦ elim (Option-cases (row_of rtype rid m)) [
    | inr (i, there) ↦
        subst (Grown rtype rid rtype' rid' m) (ground (arith, bound, there))
          (bound, bound, has_row_self rtype rid rtype' rid' i m there)
    | inl missing ↦ elim (Bool-cases (ltb m.entry_count max_entries)) [
      | inr full ↦ absurd (ground (arith, bound, missing, full))
      | inl room ↦ subst (Grown rtype rid rtype' rid' m) (ground (arith, bound, missing, room)) (
        bound,
        append_row-bound rtype rid perms m ∙ bound,
        has_row-append rtype rid perms rtype' rid' m (ltb→lt _ _ room),
      )
    ]
  ]
]

allows-has_row :
    (pid rtype rid : ℕ) (t : Intents)
    → pid < max_processes
    → allows pid rtype rid t ≡ (not (t pid).bound || has_row rtype rid (t pid))
unfolding allows has_row
allows-has_row pid rtype rid t lt = ground arith

-- One process's verdict after another manifest takes the place of its own.
allows_elsewhere :
    (pid pid' rtype rid : ℕ) (m : Manifest) (t : Intents)
    → (pid == pid') ≡ false
    → allows pid' rtype rid (update t pid m) ≡ allows pid' rtype rid t
unfolding allows
allows_elsewhere pid pid' rtype rid m t ne = ground (arith, ne)

allows_here :
    (pid rtype rid : ℕ) (m : Manifest) (t : Intents)
    → pid < max_processes
    → allows pid rtype rid (update t pid m) ≡ (not m.bound || has_row rtype rid m)
allows_here pid rtype rid m t lt =
    allows-has_row pid rtype rid (update t pid m) lt
    ∙ ap (λ (m' : Manifest). not m'.bound || has_row rtype rid m') (ground arith)

granted :
    (pid rtype rid perms : ℕ) (t : Intents) {t' : Intents}
    → manifest_grant pid rtype rid perms t ≡ (true, t')
    → (pid < max_processes)
      × ((m' : Manifest) × (grant_row rtype rid perms (t pid) ≡ (true, m'))
          × (update t pid m' ≡ t'))
unfolding manifest_grant
granted pid rtype rid perms t e = elim (Bool-cases (leb max_processes pid)) [
  | inl out ↦ absurd (ground (arith, out))
  | inr inside ↦ (
    ground (arith, inside),
    ((grant_row rtype rid perms (t pid)).1, ground (arith, inside), ground (arith, inside)),
  )
]

-- A grant that is accepted allows exactly one more resource, for exactly one process; every other
-- verdict, of this process or another, is as it was.
pub allows-grant :
    (pid rtype rid perms pid' rtype' rid' : ℕ) (t : Intents) {t' : Intents}
    → manifest_grant pid rtype rid perms t ≡ (true, t')
    → allows pid' rtype' rid' t'
      ≡ (allows pid' rtype' rid' t || (pid == pid' && (rtype == rtype' && rid == rid')))
allows-grant pid rtype rid perms pid' rtype' rid' t {t'} e =
    let (lt, (m', made, is)) = granted pid rtype rid perms t e in
    let (was, now_bound, rows) = grant_row-Grown rtype rid perms rtype' rid' (t pid) m' made in
    elim (Bool-cases (pid == pid')) [
      | inr other ↦
          ap (allows pid' rtype' rid') (sym is)
          ∙ allows_elsewhere pid pid' rtype' rid' m' t other
          ∙ ground (arith, other)
      | inl same ↦
          let q : pid ≡ pid' = ground (arith, same) in
          ap (allows pid' rtype' rid') (sym is)
          ∙ ap (λ k. allows k rtype' rid' (update t pid m')) (sym q)
          ∙ allows_here pid rtype' rid' m' t lt
          ∙ ground (
            arith,
            same,
            was,
            now_bound,
            rows,
            allows-has_row pid rtype' rid' t lt,
            ap (λ k. allows k rtype' rid' t) q,
          )
    ]

-- Where `manifest_has_room` says yes, `manifest_grant` cannot fail.
pub has_room-grant :
    (pid rtype rid perms : ℕ) (t : Intents)
    → manifest_has_room pid t ≡ true
    → (manifest_grant pid rtype rid perms t).0 ≡ true
unfolding manifest_has_room manifest_grant grant_row
has_room-grant pid rtype rid perms t h = elim (Option-cases (row_of rtype rid (t pid))) [
  | inl missing ↦ ground (arith, missing)
  | inr (i, there) ↦ ground (arith, there)
]
