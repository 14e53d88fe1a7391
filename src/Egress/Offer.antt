-- ===== src/Egress/Offer.antt =====
-- egress.c: the host's key, and the grant that a host offers over the console.
use quantum_os.Prelude.{
  ℕ, ◌+◌, Bool, true, false, not, ◌&&◌, ◌||◌, List, [], ◌∷◌, Option, none, some, leb, ◌==◌,
  if◌then◌else◌, length, take, drop,
}
use quantum_os.Audit.{Ledger}
use quantum_os.Audit.Ring.{v_eperm}
use quantum_os.Egress.State.{
  Egress, Offer, bad, spec, no_key, bad_key, shape, refused, key_hex, spec_max, is_digit,
}
use quantum_os.Egress.Parse.{semicolon}
use quantum_os.Egress.Grant.{configure_from, receipt_grant}

abbrev is_upper : ℕ → Bool
is_upper c = leb 65 c && leb c 70

abbrev pub hex_ok : ℕ → Bool
hex_ok c = is_digit c || ((leb 97 c && leb c 102) || is_upper c)

abbrev pub hex_lower : ℕ → ℕ
hex_lower c = if is_upper c then c + 32 else c

-- The digits written over the old key, up to the first that is none.
unfoldable pub write_key : List ℕ → List ℕ → Bool × List ℕ
write_key [] key = (true, key)
write_key (c ∷ hex) [] = (true, [])
write_key (c ∷ hex) (x ∷ key) =
    let (whole, key') = write_key hex key in
    if hex_ok c then (whole, hex_lower c ∷ key') else (false, x ∷ key)

unfoldable pub egress_set_key : List ℕ → Egress → Egress
egress_set_key hex s =
    if not (length hex == key_hex)
    then s
    else (let (whole, key) = write_key hex s.key in
        if whole then record s { key = key; key_set = true } else record s { key = key })

-- The bytes at the front of a payload against the key.
unfoldable pub keyed : List ℕ → List ℕ → Bool
keyed [] payload = true
keyed (x ∷ key) [] = false
keyed (x ∷ key) (c ∷ payload) =
    let rest = keyed key payload in if x == hex_lower c then rest else false

-- A `;` behind the key's sixteen bytes.
abbrev pub begins_spec : List ℕ → Bool
begins_spec [] = false
begins_spec (c ∷ s) = c == semicolon

-- The bytes before a zero.
unfoldable pub text : List ℕ → List ℕ
text [] = []
text (c ∷ s) = let rest = text s in if c == 0 then [] else c ∷ rest

-- The specification of a payload, as the parser reads the mailbox.
abbrev pub spec_of : List ℕ → List ℕ
spec_of payload = text (take spec_max (drop (key_hex + 1) payload))

unfoldable pub offered : List ℕ → Egress → Offer
offered payload s =
    if not s.key_set
    then bad no_key
    else (if not (begins_spec (drop key_hex payload))
        then bad shape
        else (if not (keyed s.key payload) then bad bad_key else spec (spec_of payload)))

unfoldable pub egress_offer : List ℕ → Egress → Egress
egress_offer payload s = record s { pending = some (offered payload s) }

unfoldable pub apply_offer : ℕ → Option Offer → Egress → Ledger → Bool × Egress × Ledger
apply_offer now none s l = (false, s, l)
apply_offer now (some (bad why)) s l = (false, s, receipt_grant now refused v_eperm l)
apply_offer now (some (spec t)) s l =
    let (done, s', l') = configure_from now t s l in
    if done then (true, s', l') else (false, s', receipt_grant now refused v_eperm l')

unfoldable pub egress_apply_pending : ℕ → Egress → Ledger → Bool × Egress × Ledger
egress_apply_pending now s l = apply_offer now s.pending (record s { pending = none }) l
