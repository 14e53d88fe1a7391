-- ===== src/Scheduler/Pick/Order.antt =====
-- What the two scans of `pick_next` find: the plain scan against its description, and the process
-- picked.
use quantum_os.Prelude.{
  ℕ, zero, suc, ◌+◌, ◌-◌, ◌%◌, ◌≤◌, ◌<◌, Bool, true, not, ◌&&◌, Option, none, some, ltb, ◌==◌,
  if◌then◌else◌, find_first, find_first-some, find_first-none, find_first-least, ◌≡◌, refl, inl,
  inr, Bool-cases, Option-cases, arith, tests, ap, ◌∙◌,
}
use quantum_os.Manifest.Table.{max_processes}
use quantum_os.Process.{Processes}
use quantum_os.Scheduler.Pick.{idle_process_id, is_runnable, pid_after, plain_scan}

-- Runnable, and not the idle process.
abbrev pub is_work : Processes → ℕ → Bool
is_work ps pid = is_runnable ps pid && not (pid == idle_process_id)

-- The first in the rotation that `test` accepts, up to `n` places from `off` places after `cursor`.
abbrev pub rotation : (ℕ → Bool) → ℕ → ℕ → ℕ → Option ℕ
rotation test n off cursor = elim (find_first n off (λ k. test (pid_after cursor k))) [
  | none ↦ none
  | some k ↦ some (pid_after cursor k)
]

-- The pid at the offset, if the scan passes over it as idle.
abbrev idle_at : Processes → ℕ → Bool
idle_at ps pid = is_runnable ps pid && pid == idle_process_id

abbrev pub or_next : Option ℕ → Option ℕ → Option ℕ
or_next none o = o
or_next (some k) o = some k

rotation_step :
    (test : ℕ → Bool) (n off cursor : ℕ)
    → rotation test (suc n) off cursor ≡ (
        if test (pid_after cursor off)
        then some (pid_after cursor off)
        else rotation test n (off + 1) cursor)
unfolding find_first
rotation_step test n off cursor = elim (Bool-cases (test (pid_after cursor off))) [
  | inl hit ↦ ground (arith, hit)
  | inr miss ↦ ground (arith, miss)
]

-- Where the pid found comes from.
pub rotation-some :
    (test : ℕ → Bool) (n off cursor : ℕ) {pid : ℕ}
    → rotation test n off cursor ≡ some pid
    → (k : ℕ) × (off ≤ k) × (k < off + n) × (pid ≡ pid_after cursor k) × (test pid ≡ true)
rotation-some test n off cursor {pid} e =
    elim (Option-cases (find_first n off (λ k. test (pid_after cursor k)))) [
      | inl missed ↦ ground (arith, missed)
      | inr (k, found) ↦
          let (hit, lo, hi) =
            find_first-some n off (λ j. test (pid_after cursor j)) {k = k} found in
          let same : pid ≡ pid_after cursor k = ground (arith, found) in
          (k, lo, hi, same, rw same hit)
    ]

idle_first :
    (n off cursor : ℕ) (ps : Processes)
    → or_next (rotation (idle_at ps) n off cursor) (some idle_process_id) ≡ some idle_process_id
idle_first n off cursor ps = elim (Option-cases (rotation (idle_at ps) n off cursor)) [
  | inl missed ↦ rw missed refl
  | inr (pid, found) ↦
      let (k, _, _, _, hit) = rotation-some (idle_at ps) n off cursor found in
      let same : pid ≡ idle_process_id = ground (arith, hit) in rw found (ap (λ x. some x) same)
]

plain_scan-rotation :
    (n off : ℕ) (idle : Option ℕ) (cursor : ℕ) (ps : Processes)
    → plain_scan n off idle cursor ps
      ≡ or_next
          (rotation (is_work ps) n off cursor)
          (or_next (rotation (idle_at ps) n off cursor) idle)
unfolding plain_scan
plain_scan-rotation zero off idle cursor ps = unfold find_first in refl
plain_scan-rotation (suc n) off idle cursor ps = ground (
  arith,
  rotation_step (is_work ps) n off cursor,
  rotation_step (idle_at ps) n off cursor,
  idle_first n (off + 1) cursor ps,
  plain_scan-rotation n (off + 1) idle cursor ps,
  plain_scan-rotation n (off + 1) (some (pid_after cursor off)) cursor ps,
)

-- How many places after `cursor` the pid `x` comes, from 1 to 256.
abbrev pub places_to : ℕ → ℕ → ℕ
places_to cursor x = max_processes - (cursor + max_processes - x) % max_processes

pub places_to_lem :
    (cursor x : ℕ)
    → x < max_processes
    → (pid_after cursor (places_to cursor x) ≡ x)
      × (1 ≤ places_to cursor x)
      × (places_to cursor x < 1 + max_processes)
places_to_lem cursor x h = omega arith

-- A scan finds what it looks for no later than any `x` that passes.
pub rotation-reaches :
    (test : ℕ → Bool) (cursor x : ℕ)
    → x < max_processes
    → test x ≡ true
    → (k : ℕ) × (rotation test max_processes 1 cursor ≡ some (pid_after cursor k))
      × (1 ≤ k)
      × (k ≤ places_to cursor x)
      × (test (pid_after cursor k) ≡ true)
rotation-reaches test cursor x h hit =
    let (lands, lo, hi) = places_to_lem cursor x h in
    let there : test (pid_after cursor (places_to cursor x)) ≡ true = rw lands hit in
    elim (Option-cases (find_first max_processes 1 (λ j. test (pid_after cursor j)))) [
      | inl missed ↦
          let off =
            find_first-none max_processes 1 (λ j. test (pid_after cursor j)) (places_to cursor x)
              missed lo hi in
          absurd (ground (arith, off, there))
      | inr (k, found) ↦
          let (hit', lo', hi') =
            find_first-some max_processes 1 (λ j. test (pid_after cursor j)) found in
          let near : k ≤ places_to cursor x = elim (Bool-cases (ltb (places_to cursor x) k)) [
            | inl late ↦
                let off =
                  find_first-least max_processes 1 (λ j. test (pid_after cursor j))
                    (places_to cursor x) found lo (omega (tests, late)) in
                absurd (ground (arith, off, there))
            | inr near ↦ ground (arith, near)
          ] in
          (k, ground (arith, found), lo', near, hit')
    ]

-- The idle process, if it can run.
abbrev pub idle_pick : Processes → Option ℕ
idle_pick ps = if is_runnable ps idle_process_id then some idle_process_id else none

idle_rotation :
    (cursor : ℕ) (ps : Processes) → rotation (idle_at ps) max_processes 1 cursor ≡ idle_pick ps
idle_rotation cursor ps = elim (Bool-cases (is_runnable ps idle_process_id)) [
  | inl can ↦
      let (k, found, _, _, hit) =
        rotation-reaches (idle_at ps) cursor idle_process_id (omega arith) (rw can refl) in
      ground (arith, found, hit, can)
  | inr cannot ↦ elim (Option-cases (rotation (idle_at ps) max_processes 1 cursor)) [
    | inl missed ↦ ground (arith, missed, cannot)
    | inr (pid, found) ↦
        let (k, _, _, _, hit) = rotation-some (idle_at ps) max_processes 1 cursor found in
        let same : pid ≡ idle_process_id = ground (arith, hit) in
        let can : is_runnable ps idle_process_id ≡ true = rw (← same) (ground (arith, hit)) in
        absurd (ground (arith, can, cannot))
  ]
]

-- The plain scan of the whole table.
pub plain_scan_lem :
    (cursor : ℕ) (ps : Processes)
    → plain_scan max_processes 1 none cursor ps
      ≡ or_next (rotation (is_work ps) max_processes 1 cursor) (idle_pick ps)
plain_scan_lem cursor ps =
    plain_scan-rotation max_processes 1 none cursor ps ∙ ground (arith, idle_rotation cursor ps)
