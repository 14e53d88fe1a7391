-- ===== src/Egress/Budget.antt =====
-- How many bytes a grant carries.
use quantum_os.Prelude.{
  ℕ, ◌+◌, ◌^◌, ◌≤◌, ◌<◌, ◌≡◌, refl, ◌∙◌, ap, subst, Bool, true, not, ◌||◌, ◌&&◌, &&_true, List, [],
  ◌∷◌, Option, none, some, ltb, ◌==◌, inl, inr, arith, Bool-cases,
}
use quantum_os.Audit.{Ledger}
use quantum_os.Egress.State.{Egress, Ip}
use quantum_os.Egress.Grant.{
  egress_active, egress_account, egress_check, egress_listen_ok, egress_note_resolution,
  state_verdict,
}
use quantum_os.Egress.Frames.{netdev_transmit, netdev_receive}
use quantum_os.Egress.Spent.{Carried, active-Carried, active_goes_on, account-Carried}

-- What happens to a grant: frames out and in, sends and listeners asked for, names resolved.
pub data Use : Type 0 where
  transmits : ℕ → Option Bool → ℕ → Use
  receives : ℕ → ℕ → Use
  checks : ℕ → ℕ → Ip → ℕ → ℕ → Use
  listens_on : ℕ → ℕ → ℕ → Use
  resolves : List ℕ → Ip → Use

-- How many bytes it carries, and the statics after it.
unfoldable pub use_grant : Use → Egress → Ledger → ℕ × Egress × Ledger
use_grant (transmits now driver len) s l = netdev_transmit now driver len s l
use_grant (receives now n) s l = netdev_receive now n s l
use_grant (checks now pid dip dport proto) s l =
    (0, (egress_check now pid dip dport proto s l).1, (egress_check now pid dip dport proto s l).2)
use_grant (listens_on now pid lport) s l =
    (0, (egress_listen_ok now pid lport s l).1, (egress_listen_ok now pid lport s l).2)
use_grant (resolves host ip) s l = (0, egress_note_resolution host ip s, l)

-- The bytes carried over a run.
unfoldable pub carried : List Use → Egress → Ledger → ℕ
carried [] s l = 0
carried (u ∷ us) s l = let (n, s', l') = use_grant u s l in n + carried us s' l'

-- A frame's length is a 16 bit number.
abbrev is_short : Use → Bool
is_short (transmits now driver len) = ltb len (2 ^ 16)
is_short (receives now n) = ltb n (2 ^ 16)
is_short u = true

unfoldable pub are_short : List Use → Bool
are_short [] = true
are_short (u ∷ us) = is_short u && are_short us

abbrev CarriedBy : ℕ → ℕ → ℕ × Egress × Ledger → Type 0
CarriedBy budget t (n, s, l) = Carried budget (t + n) s

verdict-Carried :
    (now budget t : ℕ) (s : Egress) (l : Ledger)
    → Carried budget t s
    → Carried budget t (state_verdict now s l).1
unfolding state_verdict
verdict-Carried now budget t s l v = elim (Bool-cases (egress_active now s l).0) [
  | inl on ↦
      subst (Carried budget t) (ground (arith, v.given, on)) (active-Carried now budget t s l v)
  | inr off ↦
      subst (Carried budget t) (ground (arith, v.given, off)) (active-Carried now budget t s l v)
]

idle-Carried :
    (now budget t : ℕ) (s : Egress) (l : Ledger)
    → Carried budget t s
    → Carried budget (t + 0) (egress_active now s l).1
idle-Carried now budget t s l v =
    subst (λ m. Carried budget m (egress_active now s l).1) (omega arith)
      (active-Carried now budget t s l v)

frame-Carried :
    (now budget t n : ℕ) (s : Egress) (l : Ledger)
    → budget + 2 ^ 17 ≤ 2 ^ 64
    → ltb n (2 ^ 16) ≡ true
    → (egress_active now s l).0 ≡ true
    → Carried budget t s
    → Carried budget
        (t + n)
        (egress_account now n (egress_active now s l).1 (egress_active now s l).2).0
frame-Carried now budget t n s l room short on v =
    let (goes, same) = active_goes_on now s l on in
    account-Carried now budget t n (egress_active now s l).1 (egress_active now s l).2 room
      (ground (arith, short)) (active-Carried now budget t s l v) (ap (λ x. x.over) same ∙ goes)

transmit-Carried :
    (now budget t : ℕ) (driver : Option Bool) (len : ℕ) (s : Egress) (l : Ledger)
    → budget + 2 ^ 17 ≤ 2 ^ 64
    → ltb len (2 ^ 16) ≡ true
    → Carried budget t s
    → CarriedBy budget t (netdev_transmit now driver len s l)
unfolding netdev_transmit
transmit-Carried now budget t none len s l room short v =
    subst (λ n. Carried budget n s) (omega arith) v
transmit-Carried now budget t (some taken) len s l room short v =
    let a = egress_active now s l in
    elim (Bool-cases (not a.0 || not taken)) [
      | inl stays ↦
          let is : (0, a.1, a.2) ≡ netdev_transmit now (some taken) len s l =
            ground (arith, stays) in
          subst (CarriedBy budget t) is (idle-Carried now budget t s l v)
      | inr goes ↦
          let c = egress_account now len a.1 a.2 in
          let is : (len, c.0, c.1) ≡ netdev_transmit now (some taken) len s l =
            ground (arith, goes) in
          subst (CarriedBy budget t) is
            (frame-Carried now budget t len s l room short (ground (arith, goes)) v)
    ]

receive-Carried :
    (now budget t n : ℕ) (s : Egress) (l : Ledger)
    → budget + 2 ^ 17 ≤ 2 ^ 64
    → ltb n (2 ^ 16) ≡ true
    → Carried budget t s
    → CarriedBy budget t (netdev_receive now n s l)
unfolding netdev_receive
receive-Carried now budget t n s l room short v =
    let a = egress_active now s l in
    elim (Bool-cases (n == 0)) [
      | inl nothing ↦
          let is : (0, s, l) ≡ netdev_receive now n s l = ground (arith, nothing) in
          subst (CarriedBy budget t) is (subst (λ m. Carried budget m s) (omega arith) v)
      | inr frame ↦ elim (Bool-cases a.0) [
        | inr drops ↦
            let is : (0, a.1, a.2) ≡ netdev_receive now n s l = ground (arith, frame, drops) in
            subst (CarriedBy budget t) is (idle-Carried now budget t s l v)
        | inl on ↦
            let c = egress_account now n a.1 a.2 in
            let is : (n, c.0, c.1) ≡ netdev_receive now n s l = ground (arith, frame, on) in
            subst (CarriedBy budget t) is (frame-Carried now budget t n s l room short on v)
      ]
    ]

use-Carried :
    (budget t : ℕ) (u : Use) (s : Egress) (l : Ledger)
    → budget + 2 ^ 17 ≤ 2 ^ 64
    → is_short u ≡ true
    → Carried budget t s
    → CarriedBy budget t (use_grant u s l)
unfolding use_grant egress_check egress_listen_ok egress_note_resolution
use-Carried budget t (transmits now driver len) s l room short v =
    transmit-Carried now budget t driver len s l room short v
use-Carried budget t (receives now n) s l room short v =
    receive-Carried now budget t n s l room short v
use-Carried budget t (checks now pid dip dport proto) s l room short v =
    subst (λ n. Carried budget n (state_verdict now s l).1) (omega arith)
      (verdict-Carried now budget t s l v)
use-Carried budget t (listens_on now pid lport) s l room short v =
    subst (λ n. Carried budget n (state_verdict now s l).1) (omega arith)
      (verdict-Carried now budget t s l v)
use-Carried budget t (resolves host ip) s l room short v = record {
  given = v.given;
  terms = v.terms;
  counted = omega (arith, v.counted);
  stops = λ h. omega (arith, v.stops h);
  bounded = omega (arith, v.bounded);
}

carried_bounded :
    (budget t : ℕ) (us : List Use) (s : Egress) (l : Ledger)
    → budget + 2 ^ 17 ≤ 2 ^ 64
    → are_short us ≡ true
    → Carried budget t s
    → t + carried us s l < budget + 2 ^ 16
unfolding carried are_short
carried_bounded budget t [] s l room short v = omega (arith, v.bounded)
carried_bounded budget t (u ∷ us) s l room short v =
    let (first, rest) = &&_true (is_short u) (are_short us) short in
    let n = (use_grant u s l).0 in
    omega (
      arith,
      carried_bounded budget (t + n) us (use_grant u s l).1 (use_grant u s l).2 room rest
          (use-Carried budget t u s l room first v),
    )

-- Over any run of frames, checks and resolutions on a grant that was just given, with its budget above
-- 0 and at least 2^17 below 2^64: the bytes sent and handed on are fewer than the budget and one
-- frame of at most 2^16 - 1 bytes together.
pub grant_carries_its_budget :
    (us : List Use) (s : Egress) (l : Ledger)
    → s.configured ≡ true
    → s.bytes_used ≡ 0
    → 0 < s.live.byte_budget
    → s.live.byte_budget + 2 ^ 17 ≤ 2 ^ 64
    → are_short us ≡ true
    → carried us s l < s.live.byte_budget + 2 ^ 16
grant_carries_its_budget us s l given unused above room short = omega (
  arith,
  carried_bounded s.live.byte_budget 0 us s l room short (record {
    given = given;
    terms = refl;
    counted = unused;
    stops = λ h. above;
    bounded = omega (arith, above);
  }),
)
