-- ===== src/Service.antt =====
-- service.c: which processes the health monitor watches.
use quantum_os.Prelude.{ℕ, Bool, true, false, ◌&&◌, Option, none, some, ◌==◌, find_first}
use quantum_os.Process.{Processes, process_get_generation}

-- MAX_SERVICES
abbrev pub max_services : ℕ
max_services = 32

-- `service_state_t`
pub data ServiceState : Type 0 where
  stopped starting running stopping crashed : ServiceState

-- The fields of `service_slot_t` and of its `info` that the lookup reads.
pub record Service : Type 0 where
  pub registered : Bool
  pub monitored : Bool
  pub pid : ℕ
  pub pid_generation : ℕ
  pub state : ServiceState

abbrev pub is_running : ServiceState → Bool
is_running running = true
is_running s = false

-- The first slot that runs this pid, of this generation.
unfoldable pub slot_by_pid : ℕ → Processes → (ℕ → Service) → Option ℕ
slot_by_pid pid ps services = find_first max_services 0 (λ i.
    (services i).registered
    && ((services i).pid == pid
        && (is_running (services i).state
            && process_get_generation pid ps == (services i).pid_generation)))

unfoldable pub service_pid_is_monitored : ℕ → Processes → (ℕ → Service) → Bool
service_pid_is_monitored pid ps services = elim (slot_by_pid pid ps services) [
  | none ↦ false
  | some i ↦ (services i).monitored
]
