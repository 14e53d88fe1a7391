-- ===== src/Manifest/Spending.antt =====
-- The spawn quota over a run of attempts, as `sys_spawn` makes them: the precheck, what may fail in
-- between, the charge.
use quantum_os.Prelude.{
  ℕ, ◌^◌, ◌<◌, ◌≤◌, ◌≡◌, ◌≢◌, Bool, true, ◌&&◌, List, [], ◌∷◌, arith, ltb, if◌then◌else◌, ==_refl,
  Bool-cases, inl, inr,
}
use quantum_os.Audit.{Ledger}
use quantum_os.Manifest.Table.{Manifest, Intents, max_processes}
use quantum_os.Manifest.Quota.{manifest_spawn_precheck, manifest_spawn_charge}

-- One attempt at a tick, where the program loads or not.
unfoldable pub spawn_attempt : ℕ → ℕ → Bool → Intents → Ledger → Intents × Ledger
spawn_attempt now pid loads t l =
    let (ok, l') = manifest_spawn_precheck now pid t l in
    (if ok && loads then manifest_spawn_charge pid t else t, l')

unfoldable pub spawn_attempts : ℕ → List (ℕ × Bool) → Intents → Ledger → Intents
spawn_attempts pid [] t l = t
spawn_attempts pid ((now, loads) ∷ runs) t l =
    let (t', l') = spawn_attempt now pid loads t l in spawn_attempts pid runs t' l'

-- A bound manifest with this quota, not overspent.
pub record Within (quota : ℕ) (m : Manifest) : Type 0 where
  pub bound : m.bound ≡ true
  pub quota_kept : m.spawn_max ≡ quota
  pub spent : m.spawn_used ≤ quota

attempt-Within :
    (now pid quota : ℕ) (loads : Bool) (t : Intents) (l : Ledger)
    → pid < max_processes
    → quota ≢ 0
    → quota < 2 ^ 32
    → Within quota (t pid)
    → Within quota ((spawn_attempt now pid loads t l).0 pid)
unfolding spawn_attempt manifest_spawn_precheck manifest_spawn_charge
attempt-Within now pid quota loads t l lt some_quota small w =
    elim (Bool-cases (ltb (t pid).spawn_used (t pid).spawn_max)) [
      | inl room ↦ ground (arith, room, w.bound, w.quota_kept, w.spent, ==_refl pid)
      | inr spent ↦ ground (arith, spent, w.bound, w.quota_kept, w.spent)
    ]

-- Over any run of spawn attempts of a process with a bound manifest and a quota, that is a 32-bit
-- word, the spawns that were charged never exceed the quota, and the quota stays.
pub spawn_attempts-Within :
    (pid quota : ℕ) (runs : List (ℕ × Bool)) (t : Intents) (l : Ledger)
    → pid < max_processes
    → quota ≢ 0
    → quota < 2 ^ 32
    → Within quota (t pid)
    → Within quota (spawn_attempts pid runs t l pid)
unfolding spawn_attempts
spawn_attempts-Within pid quota [] t l lt some_quota small w = w
spawn_attempts-Within pid quota ((now, loads) ∷ runs) t l lt some_quota small w =
    spawn_attempts-Within pid quota runs (spawn_attempt now pid loads t l).0
      (spawn_attempt now pid loads t l).1 lt some_quota small
      (attempt-Within now pid quota loads t l lt some_quota small w)
