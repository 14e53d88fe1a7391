-- ===== src/Egress/Grant.antt =====
-- egress.c: giving a grant, its end, and the verdicts.
use quantum_os.Prelude.{
  ℕ, ◌+◌, ◌-◌, ◌*◌, ◌%◌, ◌^◌, Bool, true, false, not, ◌&&◌, ◌||◌, List, [], ◌∷◌, map, Option, none,
  some, leb, ◌==◌, if◌then◌else◌, bit_or,
}
use quantum_os.Audit.{Ledger, audit_record}
use quantum_os.Audit.Kind
use quantum_os.Audit.Ring.{v_ok, v_eperm}
use quantum_os.Audit.Ring.{resource_device}
use quantum_os.Egress.State.{
  Verdict, ok, no_grant, expired, budget, dest, port, listen, ReceiptRow, given, ran_out, spent,
  refused, Ip, Allow, Grant, Egress, device_id_net, ip4_eq, str_eq,
}
use quantum_os.Egress.Parse.{parse_grant}

-- GRANT_GIVEN, GRANT_EXPIRED, GRANT_BUDGET and GRANT_REFUSED
abbrev row_code : ReceiptRow → ℕ
row_code given = 1
row_code ran_out = 2
row_code spent = 3
row_code refused = 4

abbrev pub receipt_grant : ℕ → ReceiptRow → ℕ → Ledger → Ledger
receipt_grant now what verdict l =
    audit_record now
      (record {
        kind = Kind.egress;
        pid = 0;
        verdict = verdict;
        resource_type = resource_device;
        resource_id = device_id_net;
        permissions = row_code what;
      })
      l

-- The grant of a specification, or `none` where it is refused. The fuel is enough for every text.
unfoldable pub parsed : List ℕ → Option Grant
parsed spec = elim (parse_grant spec) [ none ↦ none | some answer ↦ answer ]

-- The commit.
abbrev pub with_grant : ℕ → Grant → Egress → Egress
with_grant now g s = record s {
  live = g;
  start_tick = now;
  bytes_used = 0;
  over = false;
  configured = true;
}

unfoldable pub configure_from : ℕ → List ℕ → Egress → Ledger → Bool × Egress × Ledger
configure_from now spec s l = elim (parsed spec) [
  | none ↦ (false, s, l)
  | some g ↦ (true, with_grant now g s, receipt_grant now given v_ok l)
]

abbrev pub egress_configure : ℕ → List ℕ → Egress → Ledger → Bool × Egress × Ledger
egress_configure now spec s l = configure_from now spec s l

unfoldable pub quiesce : ℕ → ReceiptRow → Egress → Ledger → Egress × Ledger
quiesce now why s l =
    if s.over then (s, l) else (record s { over = true }, receipt_grant now why v_ok l)

-- The time since the grant, in 64 bits.
abbrev pub elapsed : ℕ → Egress → ℕ
elapsed now s = (now + 2 ^ 64 - s.start_tick) % 2 ^ 64

unfoldable pub egress_active : ℕ → Egress → Ledger → Bool × Egress × Ledger
egress_active now s l =
    if not s.configured || s.over
    then (false, s, l)
    else (let g = s.live in
        if leb g.ttl_ticks (elapsed now s)
        then (let (s', l') = quiesce now ran_out s l in (false, s', l'))
        else (true, s, l))

-- The bytes counted, in 64 bits.
abbrev pub counted_bytes : ℕ → Egress → Egress
counted_bytes len s = record s { bytes_used = (s.bytes_used + len) % 2 ^ 64 }

unfoldable pub egress_account : ℕ → ℕ → Egress → Ledger → Egress × Ledger
egress_account now len s l =
    if not s.configured || s.over
    then (s, l)
    else (let s' = counted_bytes len s in
        let g = s.live in
        if leb g.byte_budget s'.bytes_used then quiesce now spent s' l else (s', l))

unfoldable pub state_verdict : ℕ → Egress → Ledger → Verdict × Egress × Ledger
state_verdict now s l =
    if not s.configured
    then (no_grant, s, l)
    else (let (active, s', l') = egress_active now s l in
        let g = s'.live in
        if active
        then (ok, s', l')
        else ((if leb g.byte_budget s'.bytes_used then budget else expired), s', l'))

-- `ip_u32`: each byte at its place.
abbrev ip_u32 : Ip → ℕ
ip_u32 x = bit_or (bit_or (bit_or (x.a * 2 ^ 24) (x.b * 2 ^ 16)) (x.c * 2 ^ 8)) x.d

abbrev verdict_code : Verdict → ℕ
verdict_code ok = v_ok
verdict_code v = v_eperm

abbrev pub receipt : ℕ → ℕ → Verdict → ℕ → ℕ → ℕ → Ledger → Ledger
receipt now pid v dst p proto l =
    audit_record now
      (record {
        kind = Kind.egress;
        pid = pid;
        verdict = verdict_code v;
        resource_type = resource_device;
        resource_id = dst;
        permissions = bit_or (proto * 2 ^ 16) p;
      })
      l

-- The walk over the allowlist, from the verdict so far.
unfoldable pub walk : List Allow → Ip → ℕ → ℕ → Verdict → Verdict
walk [] dip dport proto v = v
walk (a ∷ as') dip dport proto v =
    let other_host = walk as' dip dport proto v in
    let other_port = walk as' dip dport proto port in
    if a.any
    then ok
    else (if not a.has_ip || not (ip4_eq a.ip dip)
        then other_host
        else (if a.port == dport && a.proto == proto then ok else other_port))

abbrev pub on_ok : Verdict → Verdict → Verdict
on_ok ok v = v
on_ok refusal v = refusal

unfoldable pub egress_check : ℕ → ℕ → Ip → ℕ → ℕ → Egress → Ledger → Verdict × Egress × Ledger
egress_check now pid dip dport proto s l =
    let (v, s', l') = state_verdict now s l in
    let g = s'.live in
    let v' = on_ok v (walk g.allow dip dport proto dest) in
    (v', s', receipt now pid v' (ip_u32 dip) dport proto l')

unfoldable pub listens : List ℕ → ℕ → Verdict
listens [] lport = listen
listens (p ∷ ps) lport = let rest = listens ps lport in if p == lport then ok else rest

unfoldable pub egress_listen_ok : ℕ → ℕ → ℕ → Egress → Ledger → Verdict × Egress × Ledger
egress_listen_ok now pid lport s l =
    let (v, s', l') = state_verdict now s l in
    let g = s'.live in
    let v' = on_ok v (listens g.listen lport) in (v', s', receipt now pid v' 0 lport 0 l')

abbrev is_named : List ℕ → Bool
is_named [] = false
is_named (c ∷ s) = true

unfoldable pub resolved : List ℕ → Ip → Allow → Allow
resolved host ip a =
    if is_named a.host && str_eq a.host host then record a { has_ip = true; ip = ip } else a

unfoldable pub egress_note_resolution : List ℕ → Ip → Egress → Egress
egress_note_resolution host ip s =
    let g = s.live in record s { live = record g { allow = map (resolved host ip) g.allow } }
