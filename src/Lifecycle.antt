-- ===== src/Lifecycle.antt =====
-- process.c: how a process comes to be and ends, with the components that it is created in and
-- destroyed from.
use quantum_os.Prelude.{ℕ, Bool, List}
use quantum_os.Capability.State.{System}
use quantum_os.Ipc.State.{Ipc}
use quantum_os.Manifest.Table.{Intents}
use quantum_os.Net.{Net}
use quantum_os.Process.{Processes}
use quantum_os.Qpu.Jobs.{Broker}
use quantum_os.Scheduler.{Scheduler}
pub mod Family
pub mod Destroy
pub mod Stripped
pub mod Tags
pub mod Bystanders
pub mod Gone
pub mod Reaped
pub mod Create
pub mod Births
pub mod Entry
pub mod Born
pub mod Examples

-- The statics of the components that a process has something in. `freed` lists the addresses handed
-- to `vmspace_destroy` and `kfree`, the newest first; the allocators are not modelled.
pub record World : Type 0 where
  pub processes : Processes
  pub scheduler : Scheduler
  pub caps : System
  pub intents : Intents
  pub ipc : Ipc
  pub broker : Broker
  pub net : Net
  pub freed : List ℕ
