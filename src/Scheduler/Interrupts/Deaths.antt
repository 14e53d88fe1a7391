-- ===== src/Scheduler/Interrupts/Deaths.antt =====
-- Whom a tick kills: the interrupted process, over the budget that its manifest declares, in ring 3.
use quantum_os.Prelude.{
  ℕ, Bool, true, false, ◌&&◌, ◌||◌, Option, none, some, ◌==◌, if◌then◌else◌, ◌≡◌, refl, inl, inr,
  arith, ap, ◌∙◌, sym, Bool-cases, Option-cases, subst,
}
use quantum_os.Manifest.Table.{manifest_over_budget, manifest_clear}
use quantum_os.Manifest.Quota.{manifest_tick}
use quantum_os.Process.{Process}
use quantum_os.Process.ProcessState.{terminated}
use quantum_os.Process.Queue.{store}
use quantum_os.Process.Essence.{store_self, store-other}
use quantum_os.Scheduler.Pick.{pick_next}
use quantum_os.Scheduler.Pick.Choice.{pick_next-some}
use quantum_os.Scheduler.Dispatch.{Machine, quantum_reset, scheduler_kill_current, from_current}
use quantum_os.Scheduler.Dispatch.Turn.{runnable-valid}
use quantum_os.Scheduler.Dispatch.Contexts.{some_same}
use quantum_os.Scheduler.Dispatch.Running.{OneRunning, kill_dispatch, some_injective}
use quantum_os.Scheduler.Interrupts.{
  Board, Lines, kill_over_budget, marked_dead, with_kill_noted, on_board, quantum_step,
  in_user_mode, charge_current, charge, poll_lines, scheduler_tick, is_some,
}
use quantum_os.Scheduler.Interrupts.Tick.{IsSound, poll_lines-IsSound}
use quantum_os.Scheduler.Interrupts.Alive.{marked_dead-entries}
use quantum_os.Scheduler.Interrupts.Kill.{
  dead, dead_at, runnable-alive, switch_in-dead, poll_lines-dead, count_quantum-dead,
}

-- In ring 3, past the budget declared, with something else to run.
abbrev pub doomed : ℕ → Board → Bool
doomed cur b =
    (in_user_mode b.machine && manifest_over_budget cur (manifest_tick cur b.intents))
    && is_some (pick_next cur b.machine.processes b.machine.scheduler).0

-- Who is dead after a tick in which `cur` was interrupted: who was, and `cur` if it was doomed.
abbrev pub DeadAfter : ℕ → Board → Option Board → Type 0
DeadAfter cur b o =
    (c : Board)
    → o ≡ some c
    → ((k : ℕ) → dead_at c.machine k ≡ (dead_at b.machine k || (cur == k && doomed cur b)))
      × (c.intents ≡ (
          if doomed cur b
          then manifest_clear cur (manifest_tick cur b.intents)
          else manifest_tick cur b.intents))

board_of : Board → Option Board → Board
board_of d none = d
board_of d (some c) = c

some_board : {b c : Board} → some b ≡ some c → b ≡ c
unfolding board_of
some_board {b} e = ap (board_of b) e

or_false : (a b : Bool) → a ≡ (a || (b && false))
or_false a b = ground arith

spared-DeadAfter :
    (now kernel_cr3 cur : ℕ) (b : Board) (m : Machine)
    → OneRunning m
    → doomed cur b ≡ false
    → ((k : ℕ) → dead_at m k ≡ dead_at b.machine k)
    → DeadAfter cur b (
        quantum_step now kernel_cr3
          (record b { machine = m; intents = manifest_tick cur b.intents }))
spared-DeadAfter now kernel_cr3 cur b m one safe same c is = rw safe (
  (λ k.
      ap (λ (d : Board). dead_at d.machine k) (sym (some_board is))
      ∙ count_quantum-dead now kernel_cr3 m one k
      ∙ same k
      ∙ or_false (dead_at b.machine k) (cur == k)),
  ap (λ (d : Board). d.intents) (sym (some_board is)),
)

marked_dead-dead :
    (m : Machine) (one : OneRunning m) (k : ℕ)
    → dead_at (marked_dead one.holder m) k ≡ (dead_at m k || (one.holder == k && true))
marked_dead-dead m one k =
    let die = λ (p : Process). record p { state = terminated } in
    let entry = ap dead ((marked_dead-entries m one).entries k) in
    elim (Bool-cases (one.holder == k)) [
      | inl same ↦
          let e : one.holder ≡ k = ground (arith, same) in
          let now_dead : dead ((store one.holder die m.processes).table k) ≡ true =
            subst (λ j. dead ((store one.holder die m.processes).table j) ≡ true) e
              (ap dead (store_self one.holder die m.processes)) in
          entry ∙ now_dead ∙ ground (arith, same, Bool-cases (dead_at m k))
      | inr other ↦
          entry
          ∙ ap dead (store-other one.holder die m.processes k (ground (arith, other)))
          ∙ ground (arith, other, Bool-cases (dead_at m k))
    ]

kill_current-dead :
    (now kernel_cr3 : ℕ) (m : Machine) {t : Machine}
    → scheduler_kill_current now kernel_cr3 m ≡ some t
    → (k : ℕ) → dead_at t k ≡ dead_at m k
kill_current-dead now kernel_cr3 m {t} done k =
    let from = from_current m.processes.current in
    elim (Option-cases (pick_next from m.processes m.scheduler).0) [
      | inl nobody ↦ absurd (ground (arith, kill_dispatch now kernel_cr3 m none nobody, done))
      | inr (pid, picked) ↦
          let (can, _) = pick_next-some from m.processes m.scheduler picked in
          let is = sym (kill_dispatch now kernel_cr3 m (some pid) picked) ∙ done in
          ap (λ (u : Machine). dead_at u k) (sym (some_injective is))
          ∙ switch_in-dead now kernel_cr3 pid
              (quantum_reset (record m { scheduler = (pick_next from m.processes m.scheduler).1 }))
              (runnable-valid m.processes pid can) (runnable-alive m.processes pid can) k
    ]

on_board_cases :
    (f : Machine → Board) (o : Option Machine) {c : Board}
    → on_board f o ≡ some c
    → (t : Machine) × (o ≡ some t) × (f t ≡ c)
on_board_cases f none e = absurd (ground (arith, e))
on_board_cases f (some t) e = (t, refl, some_board e)

killed-DeadAfter :
    (now kernel_cr3 : ℕ) (b : Board) (m : Machine) (one : OneRunning m)
    → doomed one.holder b ≡ true
    → ((k : ℕ) → dead_at m k ≡ dead_at b.machine k)
    → DeadAfter one.holder b (
        kill_over_budget now kernel_cr3 one.holder
          (record b { machine = m; intents = manifest_tick one.holder b.intents }))
unfolding kill_over_budget
killed-DeadAfter now kernel_cr3 b m one over same c is =
    let cur = one.holder in
    let looked = record b { machine = m; intents = manifest_tick cur b.intents } in
    let (t, done, noted) =
      on_board_cases (with_kill_noted now cur looked)
        (scheduler_kill_current now kernel_cr3 (marked_dead cur m)) is in
    rw over (
      (λ k.
          ap (λ (d : Board). dead_at d.machine k) (sym noted)
          ∙ kill_current-dead now kernel_cr3 (marked_dead cur m) done k
          ∙ marked_dead-dead m one k
          ∙ ap (λ x. x || (cur == k && true)) (same k)),
      ap (λ (d : Board). d.intents) (sym noted),
    )

-- The three ends of the charge.
module _ (now kernel_cr3 cur : ℕ) (b : Board) where
  abbrev over_budget : Bool
  over_budget = in_user_mode b.machine && manifest_over_budget cur (manifest_tick cur b.intents)

  abbrev looked : Machine
  looked = let m = b.machine in record m { scheduler = (pick_next cur m.processes m.scheduler).1 }

  abbrev charged_board : Machine → Board
  charged_board m = record b { machine = m; intents = manifest_tick cur b.intents }

  charge-spared :
      over_budget ≡ false
      → charge_current now kernel_cr3 cur b ≡ quantum_step now kernel_cr3 (charged_board b.machine)
  unfolding charge_current
  charge-spared spared = rw spared refl

  charge-alone :
      over_budget ≡ true
      → (pick_next cur b.machine.processes b.machine.scheduler).0 ≡ none
      → charge_current now kernel_cr3 cur b ≡ quantum_step now kernel_cr3 (charged_board looked)
  unfolding charge_current
  charge-alone over nobody = rw (over, nobody) refl

  charge-kills :
      {pid : ℕ}
      → over_budget ≡ true
      → (pick_next cur b.machine.processes b.machine.scheduler).0 ≡ some pid
      → charge_current now kernel_cr3 cur b
        ≡ kill_over_budget now kernel_cr3 cur (charged_board looked)
  unfolding charge_current
  charge-kills over picked = rw (over, picked) refl

charge-DeadAfter :
    (now kernel_cr3 : ℕ) (b : Board) (s : IsSound b.machine)
    → DeadAfter s.one.holder b (charge_current now kernel_cr3 s.one.holder b)
charge-DeadAfter now kernel_cr3 b s =
    let m = b.machine in
    let cur = s.one.holder in
    let one : OneRunning (looked now kernel_cr3 cur b) = record {
      holder = s.one.holder;
      is_current = s.one.is_current;
      holder_valid = s.one.holder_valid;
      holder_runs = s.one.holder_runs;
      others = s.one.others;
    } in
    elim (Bool-cases (over_budget now kernel_cr3 cur b)) [
      | inl over ↦ elim (Option-cases (pick_next cur m.processes m.scheduler).0) [
        | inl nobody ↦
            let safe : doomed cur b ≡ false = ground (arith, over, nobody) in
            subst (DeadAfter cur b) (sym (charge-alone now kernel_cr3 cur b over nobody)) (
              spared-DeadAfter now kernel_cr3 cur b (looked now kernel_cr3 cur b) one safe
                (λ k. refl))
        | inr (pid, picked) ↦
            let dies : doomed cur b ≡ true = ground (arith, over, picked) in
            subst (DeadAfter cur b) (sym (charge-kills now kernel_cr3 cur b over picked))
              (killed-DeadAfter now kernel_cr3 b (looked now kernel_cr3 cur b) one dies (λ k. refl))
      ]
      | inr spared ↦
          let safe : doomed cur b ≡ false = ground (arith, spared) in
          subst (DeadAfter cur b) (sym (charge-spared now kernel_cr3 cur b spared))
            (spared-DeadAfter now kernel_cr3 cur b m s.one safe (λ k. refl))
    ]

-- After a tick on a sound scheduler, the terminated processes are those that were before it and, if it
-- was in ring 3, is with this tick past the budget that its manifest declares, and something else can
-- run, the process `cur` that is current once the drivers were polled. Exactly then is the manifest of
-- `cur` cleared; else `cur` is charged one tick.
pub tick-DeadAfter :
    (now kernel_cr3 cur : ℕ) (lines : Lines) (b c : Board)
    → IsSound b.machine
    → (poll_lines now kernel_cr3 lines b).machine.processes.current ≡ some cur
    → scheduler_tick now kernel_cr3 lines b ≡ some c
    → let polled = poll_lines now kernel_cr3 lines b in
      ((k : ℕ) → dead_at c.machine k ≡ (dead_at b.machine k || (cur == k && doomed cur polled)))
      × (c.intents ≡ (
          if doomed cur polled
          then manifest_clear cur (manifest_tick cur polled.intents)
          else manifest_tick cur polled.intents))
unfolding scheduler_tick
tick-DeadAfter now kernel_cr3 cur lines b c s here is =
    let polled = poll_lines now kernel_cr3 lines b in
    let sound = poll_lines-IsSound now kernel_cr3 lines b s in
    let mine : sound.one.holder ≡ cur = some_same (sym sound.one.is_current ∙ here) in
    let charged =
      subst (λ k. DeadAfter k polled (charge_current now kernel_cr3 k polled)) mine
        (charge-DeadAfter now kernel_cr3 polled sound) in
    let (deaths, intents) = charged c (ap (λ o. charge now kernel_cr3 o polled) (sym here) ∙ is) in
    (
      (λ k.
          deaths k
          ∙ ap (λ d. d || (cur == k && doomed cur polled))
              (poll_lines-dead now kernel_cr3 lines b s k)),
      intents,
    )
