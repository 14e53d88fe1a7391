-- ===== src/Manifest/Examples.antt =====
-- Runs of manifest.c, and its theorems at a concrete table.
use quantum_os.Prelude.{
  ℕ, ◌≡◌, ◌↔◌, true, false, refl, List, [], ◌∷◌, some, arith, ◌&&◌, ◌||◌, ◌==◌, find_first, inr,
}
use quantum_os.Manifest.Table.{
  Intents, empty_manifest, manifest_bind, manifest_grant, manifest_has_room, allows, grant_row,
  append_row, row_of,
}
use quantum_os.Manifest.Spending.{Within}
use quantum_os.Manifest.Intent.{allows-grant}
use quantum_os.Manifest.Declares.{Declares, allows_iff}
use quantum_os.Manifest.Bounds.{Change, binds, grants, ticks, apply_all, IsValid, apply_all-IsValid}

-- The zeroed table, and the table with an empty manifest bound to process 8.
abbrev pub no_intents : Intents
no_intents _ = empty_manifest

unfoldable pub fresh : Intents
unfolding manifest_bind
fresh = manifest_bind 8 (some empty_manifest) no_intents

no_intents-IsValid : (q : ℕ) → IsValid (no_intents q)
no_intents-IsValid q = record { fits = omega arith; unbound = inr refl }

extended : Intents
unfolding fresh manifest_grant grant_row append_row row_of find_first
extended = (manifest_grant 8 1 9 0x01 fresh).1

extended_made : manifest_grant 8 1 9 0x01 fresh ≡ (true, extended)
unfolding extended
extended_made = refl

-- Process 8 may use resource 9 of class 1, and no other; process 7 is not bounded.
extended_allows :
    (allows 8 1 9 extended ≡ true)
    × (allows 8 1 10 extended ≡ false)
    × (allows 7 1 10 extended ≡ true)
unfolding extended allows
extended_allows = (refl, refl, refl)

allows-grant_example :
    allows 8 1 9 extended ≡ (allows 8 1 9 fresh || (8 == 8 && (1 == 1 && 9 == 9)))
allows-grant_example = allows-grant 8 1 9 0x01 8 1 9 fresh extended_made

fresh_room : manifest_has_room 8 fresh ≡ true
unfolding manifest_has_room fresh
fresh_room = refl

allows_iff_example : (allows 8 1 9 extended ≡ true) ↔ Declares 8 1 9 extended
allows_iff_example = allows_iff 8 1 9 extended

abbrev three_changes : List Change
three_changes = binds 8 (some empty_manifest) ∷ grants 8 1 9 0x01 ∷ ticks 8 ∷ []

apply_all-IsValid_example : IsValid (apply_all three_changes no_intents 8)
apply_all-IsValid_example = apply_all-IsValid three_changes no_intents no_intents-IsValid 8

-- Process 8 may spawn once.
one_spawn : Intents
unfolding manifest_bind
one_spawn = manifest_bind 8 (some (record empty_manifest { spawn_max = 1 })) no_intents

one_spawn-Within : Within 1 (one_spawn 8)
unfolding one_spawn
one_spawn-Within = record { bound = refl; quota_kept = refl; spent = omega arith }
