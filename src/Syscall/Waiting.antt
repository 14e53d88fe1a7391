-- ===== src/Syscall/Waiting.antt =====
-- A parent that polls gets the code of the process it waits for.
use quantum_os.Prelude.{
  ℕ, zero, suc, ◌+◌, ◌%◌, ◌^◌, ◌<◌, ◌≡◌, ◌⊎◌, true, false, List, [], ◌∷◌, Option, none, some, inl,
  inr, arith, sym, ◌∙◌, ap, length, Option-cases, find_first, find_first-some, find_first-at,
  ==_refl,
}
use quantum_os.Manifest.Table.{max_processes}
use quantum_os.Process.{Process, Processes, process_get_by_pid}
use quantum_os.Syscall.Exit.{
  Exit, ExitLedger, exit_ledger_size, exit_ledger_record, nth_newest, answers, sys_waitpid,
  waitpid_running,
}

-- Exits recorded one after the other.
unfoldable pub record_all : List Exit → ExitLedger → ExitLedger
record_all [] l = l
record_all (e ∷ es) l = record_all es (exit_ledger_record e.pid e.generation e.code l)

-- None of the exits answers for the pid.
abbrev pub NoneAnswers : ℕ → Option Process → List Exit → Type 0
NoneAnswers target p [] = Unit {0}
NoneAnswers target p (e ∷ es) =
    (answers target p (record e { valid = true }) ≡ false) × NoneAnswers target p es

next_small : (pid g c : ℕ) (l : ExitLedger) → (exit_ledger_record pid g c l).next < exit_ledger_size
unfolding exit_ledger_record
next_small pid g c l = omega arith

newest_recorded :
    (pid g c : ℕ) (l : ExitLedger)
    → l.next < exit_ledger_size
    → nth_newest (exit_ledger_record pid g c l) 0
      ≡ record { pid = pid; generation = g; code = c; valid = true }
unfolding exit_ledger_record
newest_recorded pid g c l h = ground arith

older_recorded :
    (pid g c i : ℕ) (l : ExitLedger)
    → l.next < exit_ledger_size
    → i + 1 < exit_ledger_size
    → nth_newest (exit_ledger_record pid g c l) (suc i) ≡ nth_newest l i
unfolding exit_ledger_record
older_recorded pid g c i l h lt = ground arith

-- After exits that do not answer, the entry that stood `i` back stands as many more back, and the
-- entries before it do not answer.
record_all-back :
    (target : ℕ) (p : Option Process) (es : List Exit) (l : ExitLedger) (i : ℕ)
    → l.next < exit_ledger_size
    → length es + i < exit_ledger_size
    → NoneAnswers target p es
    → ((j : ℕ) → j < i → answers target p (nth_newest l j) ≡ false)
    → (nth_newest (record_all es l) (length es + i) ≡ nth_newest l i)
      × ((j : ℕ) → j < length es + i → answers target p (nth_newest (record_all es l) j) ≡ false)
unfolding record_all
record_all-back target p [] l i h lt quiet before =
    (ap (λ k. nth_newest l k) (omega arith), λ j lo. before j (omega arith))
record_all-back target p (e ∷ es) l i h lt (q, quiet) before =
    let l' = exit_ledger_record e.pid e.generation e.code l in
    let (at, rest) =
      record_all-back target p es l' (suc i) (next_small e.pid e.generation e.code l) (omega arith)
        quiet (shifted e l i h (omega arith) q before) in
    (
      ap (λ k. nth_newest (record_all es l') k) (omega arith)
          ∙ at
          ∙ older_recorded e.pid e.generation e.code i l h (omega arith),
      λ j lo. rest j (omega arith),
    )
  where
    shifted :
        (e : Exit) (l : ExitLedger) (i : ℕ)
        → l.next < exit_ledger_size
        → i + 1 < exit_ledger_size
        → answers target p (record e { valid = true }) ≡ false
        → ((j : ℕ) → j < i → answers target p (nth_newest l j) ≡ false)
        → (j : ℕ) → j < suc i
        → answers target p (nth_newest (exit_ledger_record e.pid e.generation e.code l) j) ≡ false
    shifted e l i h lt q before zero lo =
        ap (answers target p) (newest_recorded e.pid e.generation e.code l h) ∙ q
    shifted e l i h lt q before (suc j) lo =
        ap (answers target p) (older_recorded e.pid e.generation e.code j l h (omega arith))
        ∙ before j (omega arith)

module _ (target : ℕ) (ps : Processes) where
  -- A newest answering entry gives its code.
  answered :
      (l : ExitLedger) (k : ℕ)
      → target < max_processes
      → k < exit_ledger_size
      → answers target (process_get_by_pid target ps) (nth_newest l k) ≡ true
      → ((j : ℕ) → j < k → answers target (process_get_by_pid target ps) (nth_newest l j) ≡ false)
      → sys_waitpid target ps l ≡ (nth_newest l k).code % 2 ^ 8
  unfolding sys_waitpid
  answered l k lt small hit before =
      let at =
        find_first-at exit_ledger_size 0
          (λ i. answers target (process_get_by_pid target ps) (nth_newest l i)) k hit (omega arith)
          (omega arith) (λ j lo hi. before j hi) in
      ground (arith, lt, at)

-- The pid is free, or held by the process of this generation.
abbrev pub LeftBy : ℕ → Option Process → Type 0
LeftBy g none = Unit {0}
LeftBy g (some p) = p.generation ≡ g

own_answers :
    (target g c : ℕ) (p : Option Process)
    → LeftBy g p
    → answers target p (record { pid = target; generation = g; code = c; valid = true }) ≡ true
unfolding answers
own_answers target g c none left = ground (arith, ==_refl target)
own_answers target g c (some p) left = ground (arith, ==_refl target, left)

-- After a process exits and fewer than 16 other exits follow, none of which answers for its pid,
-- `sys_waitpid` returns the low byte of its code, as long as the pid is free or still held by the
-- process itself.
pub waitpid_finds :
    (target g c : ℕ) (ps : Processes) (es : List Exit) (l : ExitLedger)
    → l.next < exit_ledger_size
    → target < max_processes
    → length es < exit_ledger_size
    → LeftBy g (process_get_by_pid target ps)
    → NoneAnswers target (process_get_by_pid target ps) es
    → sys_waitpid target ps (record_all es (exit_ledger_record target g c l)) ≡ c % 2 ^ 8
waitpid_finds target g c ps es l h lt few left quiet =
    let p = process_get_by_pid target ps in
    let l' = exit_ledger_record target g c l in
    let (at, before) =
      record_all-back target p es l' 0 (next_small target g c l) (omega arith) quiet
        (λ j lo. absurd (omega arith)) in
    let is = at ∙ newest_recorded target g c l h in
    answered target ps (record_all es l') (length es + 0) lt (omega arith)
      (ap (answers target p) is ∙ own_answers target g c p left) before
    ∙ ap (λ (e : Exit). e.code % 2 ^ 8) is

answers_sound :
    (target : ℕ) (p : Process) (e : Exit)
    → answers target (some p) e ≡ true
    → (e.valid ≡ true) × (e.pid ≡ target) × (e.generation ≡ p.generation)
unfolding answers
answers_sound target p e h = ground arith

-- While a pid is held, `sys_waitpid` says that the process runs, or gives the code of an exit
-- recorded for that very process: never one of a previous holder of the pid.
pub waitpid_current :
    (target : ℕ) (ps : Processes) (l : ExitLedger) (p : Process)
    → target < max_processes
    → process_get_by_pid target ps ≡ some p
    → (sys_waitpid target ps l ≡ waitpid_running)
      ⊎ ((i : ℕ) × ((nth_newest l i).valid ≡ true)
          × ((nth_newest l i).pid ≡ target)
          × ((nth_newest l i).generation ≡ p.generation)
          × (sys_waitpid target ps l ≡ (nth_newest l i).code % 2 ^ 8))
unfolding sys_waitpid
waitpid_current target ps l p lt holder =
    elim (Option-cases (
      find_first exit_ledger_size 0
        (λ i. answers target (process_get_by_pid target ps) (nth_newest l i)))) [
          | inl missed ↦ inl (ground (arith, missed, holder))
          | inr (i, at) ↦
              let (hit, lo, hi) =
                find_first-some exit_ledger_size 0
                  (λ j. answers target (process_get_by_pid target ps) (nth_newest l j)) at in
              let (valid, whose, gen) =
                answers_sound target p (nth_newest l i)
                  (ap (λ q. answers target q (nth_newest l i)) (sym holder) ∙ hit) in
              inr (i, valid, whose, gen, ground (arith, at))
        ]
