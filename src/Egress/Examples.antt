-- ===== src/Egress/Examples.antt =====
-- A grant that is read, given and used, and the theorems about it at concrete statics.
use quantum_os.Prelude.{
  ℕ, ◌+◌, ◌^◌, ◌≡◌, ◌⊎◌, ◌↔◌, ◌<◌, refl, true, false, none, some, List, [], ◌∷◌, ◌++◌, arith,
}
use quantum_os.Audit.Examples.{empty_ledger}
use quantum_os.Egress.State.{ok, Ip, Grant, Egress, proto_udp, no_terms}
use quantum_os.Egress.Parse.{
  after_word, digits, parse_u64, number, parse_ip, host_name, parse_host, parse_dest, parse_allow,
  entries, list_field, parse_field, one_field, parse_fields, parse_grant,
}
use quantum_os.Egress.Grant.{egress_check, parsed, with_grant}
use quantum_os.Egress.Offer.{egress_offer, egress_apply_pending}
use quantum_os.Egress.Allowed.{IsLive, Permitted, egress_check_iff}
use quantum_os.Egress.Budget.{
  Use, transmits, receives, checks, are_short, carried, grant_carries_its_budget,
}
use quantum_os.Egress.Console.{Applied, RefusedOffer, offer_needs_key}

-- ttl=9;bytes=99;allow=10.0.2.2:53/udp
abbrev spec_text : List ℕ
spec_text =
    116 ∷ 116 ∷ 108 ∷ 61 ∷ 57 ∷ 59 ∷ 98 ∷ 121 ∷ 116 ∷ 101 ∷ 115 ∷ 61 ∷ 57 ∷ 57 ∷ 59 ∷ 97 ∷ 108 ∷ 108
    ∷ 111 ∷ 119 ∷ 61 ∷ 49 ∷ 48 ∷ 46 ∷ 48 ∷ 46 ∷ 50 ∷ 46 ∷ 50 ∷ 58 ∷ 53 ∷ 51 ∷ 47 ∷ 117 ∷ 100 ∷ 112
    ∷ []

abbrev resolver : Ip
resolver = record { a = 10; b = 0; c = 2; d = 2 }

abbrev terms : Grant
terms = record {
  ttl_ticks = 900;
  byte_budget = 99;
  allow =
      record { any = false; has_ip = true; ip = resolver; port = 53; proto = proto_udp; host = [] }
      ∷ [];
  listen = [];
}

reads_spec : parsed spec_text ≡ some terms
unfolding parsed parse_grant parse_fields one_field parse_field list_field entries parse_allow
    parse_dest parse_host host_name parse_ip number parse_u64 digits after_word
reads_spec = refl

-- 18446744073709551696 is read as 80: the value wraps at 2^64.
wraps_number :
    parse_u64 (
      49 ∷ 56 ∷ 52 ∷ 52 ∷ 54 ∷ 55 ∷ 52 ∷ 52 ∷ 48 ∷ 55 ∷ 51 ∷ 55 ∷ 48 ∷ 57 ∷ 53 ∷ 53 ∷ 49 ∷ 54 ∷ 57
      ∷ 54 ∷ [])
    ≡ some (80, [])
unfolding parse_u64 digits
wraps_number = refl

-- ttl=4611686018427387904;bytes=1 is a grant of no time at all.
wraps_ttl :
    parsed (
      116 ∷ 116 ∷ 108 ∷ 61 ∷ 52 ∷ 54 ∷ 49 ∷ 49 ∷ 54 ∷ 56 ∷ 54 ∷ 48 ∷ 49 ∷ 56 ∷ 52 ∷ 50 ∷ 55 ∷ 51
      ∷ 56 ∷ 55 ∷ 57 ∷ 48 ∷ 52 ∷ 59 ∷ 98 ∷ 121 ∷ 116 ∷ 101 ∷ 115 ∷ 61 ∷ 49 ∷ [])
    ≡ some (record no_terms { byte_budget = 1 })
unfolding parsed parse_grant parse_fields one_field parse_field list_field entries parse_u64 digits
    after_word
wraps_ttl = refl

abbrev host_key : List ℕ
host_key = 48 ∷ 49 ∷ 50 ∷ 51 ∷ 52 ∷ 53 ∷ 54 ∷ 55 ∷ 56 ∷ 57 ∷ 97 ∷ 98 ∷ 99 ∷ 100 ∷ 101 ∷ 102 ∷ []

abbrev booted : Egress
booted = record {
  configured = false;
  over = false;
  start_tick = 0;
  bytes_used = 0;
  live = no_terms;
  key_set = true;
  key = host_key;
  pending = none;
}

abbrev networked : Egress
networked = with_grant 5 terms booted

egress_check_iff_example :
    ((egress_check 6 3 resolver 53 proto_udp networked empty_ledger).0 ≡ ok)
    ↔ (IsLive 6 networked × Permitted resolver 53 proto_udp networked.live.allow)
egress_check_iff_example = egress_check_iff 6 3 resolver 53 proto_udp networked empty_ledger

abbrev traffic : List Use
traffic =
    checks 6 3 resolver 53 proto_udp
    ∷ transmits 6 (some true) 70
    ∷ receives 7 90
    ∷ transmits 8 (some true) 40
    ∷ []

grant_carries_its_budget_example :
    carried traffic networked empty_ledger < networked.live.byte_budget + 2 ^ 16
unfolding are_short
grant_carries_its_budget_example =
    grant_carries_its_budget traffic networked empty_ledger refl refl (omega arith) (omega arith)
      refl

-- 0123456789ABCDEF;ttl=9;bytes=99;allow=10.0.2.2:53/udp
abbrev payload : List ℕ
payload =
    (48 ∷ 49 ∷ 50 ∷ 51 ∷ 52 ∷ 53 ∷ 54 ∷ 55 ∷ 56 ∷ 57 ∷ 65 ∷ 66 ∷ 67 ∷ 68 ∷ 69 ∷ 70 ∷ 59 ∷ [])
    ++ spec_text

offer_needs_key_example :
    Applied 5 payload booted empty_ledger
      (egress_apply_pending 5 (egress_offer payload booted) empty_ledger)
    ⊎ RefusedOffer 5 booted empty_ledger
        (egress_apply_pending 5 (egress_offer payload booted) empty_ledger)
offer_needs_key_example = offer_needs_key 5 payload booted empty_ledger
