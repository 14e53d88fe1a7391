-- ===== src/Egress/Allowed.antt =====
-- What `egress_check` allows.
use quantum_os.Prelude.{
  ℕ, zero, suc, ◌≡◌, ◌≢◌, ◌↔◌, refl, sym, ◌∙◌, ap, Bool, true, false, not, ◌&&◌, ◌||◌, List, [],
  ◌∷◌, some, leb, ◌==◌, get_elem?, inl, inr, arith, Bool-cases,
}
use quantum_os.Audit.{Ledger}
use quantum_os.Egress.State.{Verdict, ok, dest, port, Ip, Allow, Egress, ip4_eq}
use quantum_os.Egress.Grant.{
  egress_check, state_verdict, egress_active, quiesce, walk, elapsed, on_ok,
}

-- The grant stands at `now`: given, not over, and within its time.
pub record IsLive (now : ℕ) (s : Egress) : Type 0 where
  pub given : s.configured ≡ true
  pub goes_on : s.over ≡ false
  pub in_time : leb s.live.ttl_ticks (elapsed now s) ≡ false

-- The entry is the wide one, or it names the destination with its port and protocol.
abbrev pub permits : Ip → ℕ → ℕ → Allow → Bool
permits dip dport proto a =
    a.any || ((a.has_ip && ip4_eq a.ip dip) && (a.port == dport && a.proto == proto))

-- Some entry permits.
abbrev pub Permitted : Ip → ℕ → ℕ → List Allow → Type 0
Permitted dip dport proto xs =
    (i : ℕ) × (a : Allow) × (get_elem? xs i ≡ some a) × (permits dip dport proto a ≡ true)

walk_first :
    (a : Allow) (xs : List Allow) (dip : Ip) (dport proto : ℕ) (v : Verdict)
    → permits dip dport proto a ≡ true
    → walk (a ∷ xs) dip dport proto v ≡ ok
unfolding walk
walk_first a xs dip dport proto v h = ground (arith, h)

-- An entry that does not permit changes at most why the walk would refuse.
walk_next :
    (a : Allow) (xs : List Allow) (dip : Ip) (dport proto : ℕ) (v : Verdict)
    → permits dip dport proto a ≡ false
    → v ≢ ok
    → (v' : Verdict) × (v' ≢ ok) × (walk (a ∷ xs) dip dport proto v ≡ walk xs dip dport proto v')
unfolding walk
walk_next a xs dip dport proto v h ne = elim (Bool-cases (not a.has_ip || not (ip4_eq a.ip dip))) [
  | inl other ↦ (v, ne, ground (arith, h, other))
  | inr same ↦ (port, ground arith, ground (arith, h, same))
]

walk_sound :
    (xs : List Allow) (dip : Ip) (dport proto : ℕ) (v : Verdict)
    → v ≢ ok
    → walk xs dip dport proto v ≡ ok
    → Permitted dip dport proto xs
walk_sound [] dip dport proto v ne e = absurd (unfold walk in ne e)
walk_sound (a ∷ xs) dip dport proto v ne e = elim (Bool-cases (permits dip dport proto a)) [
  | inl here ↦ (0, a, refl, here)
  | inr passed ↦
      let (v', ne', same) = walk_next a xs dip dport proto v passed ne in
      let (i, b, at, fits) = walk_sound xs dip dport proto v' ne' (sym same ∙ e) in
      (suc i, b, at, fits)
]

walk_complete :
    (xs : List Allow) (dip : Ip) (dport proto : ℕ) (v : Verdict)
    → v ≢ ok
    → Permitted dip dport proto xs
    → walk xs dip dport proto v ≡ ok
walk_complete [] dip dport proto v ne (i, a, at, fits) = absurd (ground (arith, at))
walk_complete (b ∷ xs) dip dport proto v ne (zero, a, at, fits) =
    walk_first b xs dip dport proto v (ground (arith, at, fits))
walk_complete (b ∷ xs) dip dport proto v ne (suc i, a, at, fits) =
    elim (Bool-cases (permits dip dport proto b)) [
      | inl here ↦ walk_first b xs dip dport proto v here
      | inr passed ↦
          let (v', ne', same) = walk_next b xs dip dport proto v passed ne in
          same ∙ walk_complete xs dip dport proto v' ne' (i, a, at, fits)
    ]

-- A live grant passes and nothing changes.
state_verdict_live :
    (now : ℕ) (s : Egress) (l : Ledger) → IsLive now s → state_verdict now s l ≡ (ok, s, l)
unfolding state_verdict egress_active
state_verdict_live now s l v = ground (arith, v.given, v.goes_on, v.in_time)

state_verdict_ok :
    (now : ℕ) (s : Egress) (l : Ledger) → (state_verdict now s l).0 ≡ ok → IsLive now s
unfolding state_verdict egress_active quiesce
state_verdict_ok now s l e = elim (Bool-cases s.configured) [
  | inr never ↦ absurd (ground (arith, never, e))
  | inl on ↦ elim (Bool-cases s.over) [
    | inl ended ↦ absurd (ground (arith, on, ended, e))
    | inr goes ↦ elim (Bool-cases (leb s.live.ttl_ticks (elapsed now s))) [
      | inl late ↦ absurd (ground (arith, on, goes, late, e))
      | inr in_time ↦ record { given = on; goes_on = goes; in_time = in_time }
    ]
  ]
]

on_ok_both : (v w : Verdict) → on_ok v w ≡ ok → (v ≡ ok) × (w ≡ ok)
on_ok_both ok w e = (refl, e)
on_ok_both v w e = (e, absurd (ground (arith, e)))

-- `egress_check` allows a send exactly when a grant was given, is not over and is within its time, and
-- some entry of its allowlist is the wide one or has the destination's address, port and protocol,
-- wherever in the list it stands.
pub egress_check_iff :
    (now pid : ℕ) (dip : Ip) (dport proto : ℕ) (s : Egress) (l : Ledger)
    → ((egress_check now pid dip dport proto s l).0 ≡ ok)
      ↔ (IsLive now s × Permitted dip dport proto s.live.allow)
unfolding egress_check
egress_check_iff now pid dip dport proto s l = (
  λ h.
      let (passed, found) =
        on_ok_both (state_verdict now s l).0
          (walk (state_verdict now s l).1.live.allow dip dport proto dest) h in
      let live = state_verdict_ok now s l passed in
      let is = state_verdict_live now s l live in
      (
        live,
        walk_sound s.live.allow dip dport proto dest (ground arith)
            (sym (ap (λ x. walk x.1.live.allow dip dport proto dest) is) ∙ found),
      ),
  λ (live, found).
      let is = state_verdict_live now s l live in
      ap (λ x. on_ok x.0 (walk x.1.live.allow dip dport proto dest)) is
      ∙ walk_complete s.live.allow dip dport proto dest (ground arith) found,
)
