-- ===== src/Syscall/Gate.antt =====
-- syscall.c: the kernel state that the gated calls share, and `authorize`.
use quantum_os.Prelude.{ℕ, Bool, false}
use quantum_os.Audit.{audit_deny}
use quantum_os.Capability.State.{System, success}
use quantum_os.Capability.Find.{cap_find_resource}
use quantum_os.Manifest.Table.{Intents, manifest_check}
use quantum_os.Process.{Processes}
use quantum_os.Service.{Service}

-- The statics of the components that the gated calls read and write. The ledger is in `caps`.
pub record Kernel : Type 0 where
  pub caps : System
  pub intents : Intents
  pub processes : Processes
  pub services : ℕ → Service

-- `audit_deny` on the kernel.
abbrev pub deny : ℕ → ℕ → ℕ → ℕ → ℕ → Kernel → Kernel
deny now pid rtype rid perms k =
    let caps = k.caps in
    record k { caps = record caps { ledger = audit_deny now pid rtype rid perms caps.ledger } }

-- `manifest_check` on the kernel.
abbrev pub declared : ℕ → ℕ → ℕ → ℕ → ℕ → Kernel → Bool × Kernel
declared now pid rtype rid perms k =
    let caps = k.caps in
    let (ok, l) = manifest_check now pid rtype rid perms k.intents caps.ledger in
    (ok, record k { caps = record caps { ledger = l } })

unfoldable pub authorize : ℕ → ℕ → ℕ → ℕ → ℕ → Kernel → Bool × Kernel
authorize now pid rtype perm rid k = elim (cap_find_resource now pid rtype perm rid k.caps) [
  | success ↦ declared now pid rtype rid perm k
  | refusal ↦ (false, deny now pid rtype rid perm k)
]
