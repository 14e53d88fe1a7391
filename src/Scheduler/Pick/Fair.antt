-- ===== src/Scheduler/Pick/Fair.antt =====
-- How each pick brings a process that waits nearer to its turn.
use quantum_os.Prelude.{
  ℕ, ◌+◌, ◌-◌, ◌*◌, ◌≤◌, ◌<◌, true, some, ◌==◌, ◌≡◌, ◌⊎◌, inl, inr, Bool-cases, Option-cases, arith,
  ap, ◌∙◌,
}
use quantum_os.Manifest.Table.{max_processes}
use quantum_os.Process.{Processes}
use quantum_os.Scheduler.{Scheduler}
use quantum_os.Scheduler.Pick.{boost_max_consec, pid_after, pick_next, counted_pick}
use quantum_os.Scheduler.Pick.Order.{
  is_work, places_to, rotation-reaches, or_next, plain_scan_lem, idle_pick, places_to_lem,
}
use quantum_os.Scheduler.Pick.Choice.{
  boost_candidate, boost_candidate-some, pick_next-boosted, pick_next-plain,
}

-- An upper bound on the picks that come before the one of `x`.
abbrev pub picks_left : ℕ → Scheduler → ℕ
picks_left x s = (boost_max_consec + 1) * places_to s.rr_cursor x - s.consec_boost

-- The statics as a committed pick leaves them.
abbrev pub committed : ℕ → Processes → Scheduler → ℕ → Scheduler
committed from ps s pid = counted_pick pid (pick_next from ps s).1

nearer :
    (cursor x k : ℕ)
    → x < max_processes
    → 1 ≤ k
    → k ≤ places_to cursor x
    → (pid_after cursor k ≡ x) ⊎ (places_to (pid_after cursor k) x + k ≤ places_to cursor x)
nearer cursor x k h lo near = elim (Bool-cases (k == places_to cursor x)) [
  | inl same ↦ inl (ground (arith, same, places_to_lem cursor x h))
  | inr other ↦
      let short : k < places_to cursor x = ground (arith, near, other) in inr (omega (arith, short))
]

-- A pick is of `x`, or it lessens the bound.
pub pick-progress :
    (from : ℕ) (ps : Processes) (s : Scheduler) (x : ℕ)
    → x < max_processes
    → is_work ps x ≡ true
    → s.consec_boost ≤ boost_max_consec
    → (pid : ℕ) × ((pick_next from ps s).0 ≡ some pid)
      × (is_work ps pid ≡ true)
      × ((committed from ps s pid).consec_boost ≤ boost_max_consec)
      × ((pid ≡ x) ⊎ (picks_left x (committed from ps s pid) < picks_left x s))
pick-progress from ps s x below work budget = elim (Option-cases (boost_candidate from ps s)) [
  | inr (pid, boosted) ↦
      let done = pick_next-boosted from ps s boosted in
      let lasts : s.consec_boost < boost_max_consec = ground (arith, boosted) in
      let (hit, _) = boost_candidate-some from ps s boosted in
      (
        pid,
        ap (λ r. r.0) done,
        hit,
        rw done (omega (arith, lasts)),
        inr (rw done (omega (arith, lasts, places_to_lem s.rr_cursor x below))),
      )
  | inl plain ↦
      let (k, found, lo, near, hit) = rotation-reaches (is_work ps) s.rr_cursor x below work in
      let done = pick_next-plain from ps s plain in
      let scanned = plain_scan_lem s.rr_cursor ps ∙ ap (λ o. or_next o (idle_pick ps)) found in
      (
        pid_after s.rr_cursor k,
        ap (λ r. r.0) done ∙ scanned,
        hit,
        rw done (omega arith),
        elim (nearer s.rr_cursor x k below lo near) [
          | inl same ↦ inl same
          | inr less ↦ inr (rw done (omega (arith, less, lo, budget)))
        ],
      )
]
