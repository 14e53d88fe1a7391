-- ===== src/Egress/Console.antt =====
-- What an offer over the console can change.
use quantum_os.Prelude.{
  ℕ, ◌≡◌, ◌⊎◌, refl, sym, ap₂, Bool, true, false, List, [], ◌∷◌, map, take, length, drop, none,
  some, inl, inr, arith, Bool-cases, Option-cases,
}
use quantum_os.Audit.{Ledger}
use quantum_os.Audit.Ring.{v_ok, v_eperm}
use quantum_os.Egress.State.{
  Egress, Grant, given, refused, Reason, no_key, bad_key, shape, bad, spec, key_hex,
}
use quantum_os.Egress.Grant.{configure_from, parsed, receipt_grant}
use quantum_os.Egress.Offer.{
  egress_offer, offered, egress_apply_pending, apply_offer, keyed, hex_lower, spec_of, begins_spec,
}

abbrev pub Result : Type 0
Result = Bool × Egress × Ledger

-- The offer was applied: the key was set, the payload begins with it in either case, the specification
-- is a grant, and that is live from now, with no byte used. The rest is as it was.
pub record Applied (now : ℕ) (payload : List ℕ) (s : Egress) (l : Ledger) (r : Result)
    : Type 0 where
  pub key_set : s.key_set ≡ true
  pub key_fits : map hex_lower (take (length s.key) payload) ≡ s.key
  pub grant : Grant
  pub reads : parsed (spec_of payload) ≡ some grant
  pub says_so : r.0 ≡ true
  pub live : r.1.live ≡ grant
  pub starts : r.1.start_tick ≡ now
  pub unused : r.1.bytes_used ≡ 0
  pub configured : r.1.configured ≡ true
  pub not_over : r.1.over ≡ false
  pub same_key : r.1.key ≡ s.key
  pub stays_set : r.1.key_set ≡ true
  pub taken : r.1.pending ≡ none
  pub receipt : r.2 ≡ receipt_grant now given v_ok l

-- The offer was refused: nothing but the mailbox changed, and the refusal is recorded.
abbrev pub RefusedOffer : ℕ → Egress → Ledger → Result → Type 0
RefusedOffer now s l r =
    r ≡ (false, record s { pending = none }, receipt_grant now refused v_eperm l)

-- The test of the key is the comparison of its bytes with as many of the payload in lower case.
keyed_lem :
    (key payload : List ℕ)
    → keyed key payload ≡ true
    → map hex_lower (take (length key) payload) ≡ key
unfolding keyed
keyed_lem [] payload fits = refl
keyed_lem (x ∷ key) [] fits = absurd (ground (arith, fits))
keyed_lem (x ∷ key) (c ∷ payload) fits =
    let rest = keyed_lem key payload (ground (arith, fits)) in
    let same : x ≡ hex_lower c = ground (arith, fits) in ap₂ (λ a rest_. a ∷ rest_) (sym same) rest

offered-cases :
    (payload : List ℕ) (s : Egress)
    → ((offered payload s ≡ spec (spec_of payload))
        × (s.key_set ≡ true)
        × (keyed s.key payload ≡ true))
      ⊎ ((why : Reason) × (offered payload s ≡ bad why))
unfolding offered
offered-cases payload s = elim (Bool-cases s.key_set) [
  | inr unset ↦ inr (no_key, ground (arith, unset))
  | inl set ↦ elim (Bool-cases (begins_spec (drop key_hex payload))) [
    | inr other ↦ inr (shape, ground (arith, set, other))
    | inl begins ↦ elim (Bool-cases (keyed s.key payload)) [
      | inr wrong ↦ inr (bad_key, ground (arith, set, begins, wrong))
      | inl fits ↦ inl (ground (arith, set, begins, fits), set, fits)
    ]
  ]
]

-- An offer that arrives and is applied either began with the bytes of the key that was set, in either
-- case, and gives a grant, and then that grant is the live one, from now and with no byte used, and the
-- key stays; or it is refused, with a row in the ledger, and neither the grant nor the key nor what
-- was used of it changes.
pub offer_needs_key :
    (now : ℕ) (payload : List ℕ) (s : Egress) (l : Ledger)
    → Applied now payload s l (egress_apply_pending now (egress_offer payload s) l)
      ⊎ RefusedOffer now s l (egress_apply_pending now (egress_offer payload s) l)
unfolding egress_apply_pending egress_offer apply_offer configure_from
offer_needs_key now payload s l = elim (offered-cases payload s) [
  | inr (why, rejected) ↦ inr (ground (arith, rejected))
  | inl (accepted, set, fits) ↦ elim (Option-cases (parsed (spec_of payload))) [
    | inl unread ↦ inr (ground (arith, accepted, unread))
    | inr (g, reads) ↦ inl (record {
      key_set = set;
      key_fits = keyed_lem s.key payload fits;
      grant = g;
      reads = reads;
      says_so = ground (arith, accepted, reads);
      live = ground (arith, accepted, reads);
      starts = ground (arith, accepted, reads);
      unused = ground (arith, accepted, reads);
      configured = ground (arith, accepted, reads);
      not_over = ground (arith, accepted, reads);
      same_key = ground (arith, accepted, reads);
      stays_set = ground (arith, accepted, reads, set);
      taken = ground (arith, accepted, reads);
      receipt = ground (arith, accepted, reads);
    })
  ]
]
