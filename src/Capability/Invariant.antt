-- ===== src/Capability/Invariant.antt =====
-- What holds of the capability table between calls.
pub mod Count
pub mod Tree
pub mod Grow
use quantum_os.Prelude.{ℕ, ◌≤◌, ◌<◌, ◌≡◌, true}
use quantum_os.Capability.State.{System, max_capabilities}
use Count.{used}
use Tree.{IsTree}

pub record IsValid (s : System) : Type 0 where
  pub tree : IsTree s.table
  pub mark : s.hwm ≤ max_capabilities
  pub below : (i : ℕ) → (s.table i).in_use ≡ true → i < s.hwm
  pub active : s.stats.active ≡ used max_capabilities s.table
