-- ===== src/Egress/Spent.antt =====
-- What one frame does to the count of a grant.
use quantum_os.Prelude.{
  ℕ, ◌+◌, ◌%◌, ◌^◌, ◌≤◌, ◌<◌, ◌≡◌, subst, true, false, not, ◌||◌, leb, inl, inr, arith, Bool-cases,
}
use quantum_os.Audit.{Ledger}
use quantum_os.Egress.State.{Egress}
use quantum_os.Egress.Grant.{egress_active, egress_account, quiesce, elapsed}

-- `t` bytes were carried on a grant of `budget` bytes: they are counted, and the grant is over when
-- the budget is spent.
pub record Carried (budget t : ℕ) (s : Egress) : Type 0 where
  pub given : s.configured ≡ true
  pub terms : s.live.byte_budget ≡ budget
  pub counted : s.bytes_used ≡ t
  pub stops : s.over ≡ false → t < budget
  pub bounded : t < budget + 2 ^ 16

pub active-Carried :
    (now budget t : ℕ) (s : Egress) (l : Ledger)
    → Carried budget t s
    → Carried budget t (egress_active now s l).1
unfolding egress_active quiesce
active-Carried now budget t s l v = elim (Bool-cases (not s.configured || s.over)) [
  | inl off ↦ subst (Carried budget t) (ground (arith, off)) v
  | inr on ↦ elim (Bool-cases (leb s.live.ttl_ticks (elapsed now s))) [
    | inr in_time ↦ subst (Carried budget t) (ground (arith, on, in_time)) v
    | inl late ↦
        let next : Egress = record s { over = true } in
        let v' : Carried budget t next = record {
          given = v.given;
          terms = v.terms;
          counted = v.counted;
          stops = λ h. absurd (ground (arith, h));
          bounded = v.bounded;
        } in
        subst (Carried budget t) (ground (arith, on, late)) v'
  ]
]

-- A grant that is active is not over.
pub active_goes_on :
    (now : ℕ) (s : Egress) (l : Ledger)
    → (egress_active now s l).0 ≡ true
    → (s.over ≡ false) × ((egress_active now s l).1 ≡ s)
unfolding egress_active quiesce
active_goes_on now s l e = elim (Bool-cases (not s.configured || s.over)) [
  | inl off ↦ absurd (ground (arith, off, e))
  | inr on ↦ elim (Bool-cases (leb s.live.ttl_ticks (elapsed now s))) [
    | inl late ↦ absurd (ground (arith, on, late, e))
    | inr in_time ↦ (ground (arith, on), ground (arith, on, in_time))
  ]
]

pub account-Carried :
    (now budget t len : ℕ) (s : Egress) (l : Ledger)
    → budget + 2 ^ 17 ≤ 2 ^ 64
    → len < 2 ^ 16
    → Carried budget t s
    → s.over ≡ false
    → Carried budget (t + len) (egress_account now len s l).0
unfolding egress_account quiesce
account-Carried now budget t len s l room short v on =
    let sum : (s.bytes_used + len) % 2 ^ 64 ≡ t + len = omega (arith, v.counted, v.bounded) in
    let next : Egress = record s { bytes_used = (s.bytes_used + len) % 2 ^ 64 } in
    elim (Bool-cases (leb s.live.byte_budget ((s.bytes_used + len) % 2 ^ 64))) [
      | inr left ↦
          let v' : Carried budget (t + len) next = record {
            given = v.given;
            terms = v.terms;
            counted = sum;
            stops = λ h. ground (arith, left, sum, v.terms);
            bounded = ground (arith, left, sum, v.terms);
          } in
          subst (Carried budget (t + len)) (ground (arith, v.given, on, left)) v'
      | inl gone ↦
          let last : Egress = record next { over = true } in
          let v' : Carried budget (t + len) last = record {
            given = v.given;
            terms = v.terms;
            counted = sum;
            stops = λ h. absurd (ground (arith, h));
            bounded = omega (arith, v.stops on);
          } in
          subst (Carried budget (t + len)) (ground (arith, v.given, on, gone)) v'
    ]
