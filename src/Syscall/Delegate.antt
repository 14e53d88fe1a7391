-- ===== src/Syscall/Delegate.antt =====
-- syscall.c: `sys_cap_derive`, by which a process hands a narrowed capability to a peer.
use quantum_os.Prelude.{
  ℕ, ◌-◌, ◌^◌, Bool, true, false, not, ◌||◌, Option, none, some, leb, ◌==◌, if◌then◌else◌, bit_and,
  bit_or,
}
use quantum_os.Capability.State.{System, CapResult, success, no_space, cap_id_invalid}
use quantum_os.Capability.Create.{cap_grant, cap_derive}
use quantum_os.Capability.Find.{cap_find_resource, cap_find_id}
use quantum_os.Capability.Revoke.{resource_ipc}
use quantum_os.Capability.Withdraw.{cap_revoke_bit}
use quantum_os.Manifest.Table.{max_processes, manifest_grant, manifest_has_room}
use quantum_os.Process.{kernel_process_id, process_get_by_pid, is_schedulable, is_user}
use quantum_os.Service.{service_pid_is_monitored}
use quantum_os.Syscall.Gate.{Kernel, deny, declared}

-- CAP_WRITE
abbrev pub cap_write : ℕ
cap_write = 0x02

-- SYSCALL_EINVAL, SYSCALL_EFAULT, SYSCALL_EPERM and SYSCALL_EIO
abbrev pub einval : ℕ
einval = 2 ^ 64 - 1

abbrev pub efault : ℕ
efault = 2 ^ 64 - 2

abbrev pub eperm : ℕ
eperm = 2 ^ 64 - 4

abbrev pub eio : ℕ
eio = 2 ^ 64 - 5

-- `cap_derive_req_k_t`
pub record Request : Type 0 where
  pub resource_type : ℕ
  pub resource_id : ℕ
  pub permissions : ℕ
  pub target_pid : ℕ
  pub expiration : ℕ

abbrev pub cap_derive_errno : CapResult → ℕ
cap_derive_errno success = 0
cap_derive_errno no_space = eio
cap_derive_errno refusal = eperm

-- The target is a user process that runs or may run, not the caller, the kernel or a watched service.
unfoldable pub may_receive : ℕ → ℕ → Kernel → Bool
may_receive pid target k =
    if target == pid || (target == kernel_process_id || leb max_processes target)
    then false
    else (elim (process_get_by_pid target k.processes) [
      | none ↦ false
      | some p ↦
          if not (is_user p.type) || not (is_schedulable p.state)
          then false
          else not (service_pid_is_monitored target k.processes k.services)
    ])

-- What stands in `parent_id` after a lookup that wrote to it or not.
abbrev pub written : Option ℕ → ℕ
written none = cap_id_invalid
written (some id) = id

-- What follows `cap_derive`: the recipient's manifest is extended only for a child that was minted.
unfoldable pub settle : Request → Kernel → CapResult → System → ℕ × Kernel
settle r k success caps = (
  0,
  record k {
    caps = caps;
    intents = (manifest_grant r.target_pid r.resource_type r.resource_id r.permissions k.intents).1;
  },
)
settle r k refusal caps = (cap_derive_errno refusal, record k { caps = caps })

unfoldable pub mint_for : ℕ → ℕ → Request → ℕ → Kernel → ℕ × Kernel
mint_for now pid r parent_id k =
    let (result, child, caps) =
      cap_derive now parent_id pid r.target_pid r.permissions r.expiration true k.caps in
    settle r k result caps

-- From the idempotence test on.
unfoldable pub hand_over : ℕ → ℕ → Request → Kernel → ℕ × Kernel
hand_over now pid r k =
    elim (cap_find_resource now r.target_pid r.resource_type r.permissions r.resource_id k.caps) [
      | success ↦ (0, k)
      | uncovered ↦
          let needed = bit_or r.permissions cap_grant in
          let (found, handle) =
            cap_find_id now pid r.resource_type needed r.resource_id true k.caps in
          elim found [
            | success ↦
                if not (manifest_has_room r.target_pid k.intents)
                then (eio, k)
                else mint_for now pid r (written handle) k
            | refusal ↦ (eperm, deny now pid r.resource_type r.resource_id needed k)
          ]
    ]

-- `none` is a request that is not mapped in the caller's memory.
unfoldable pub sys_cap_derive : ℕ → ℕ → Option Request → Kernel → ℕ × Kernel
sys_cap_derive now pid none k = (efault, k)
sys_cap_derive now pid (some r) k =
    if r.permissions == 0
    then (einval, k)
    else (if not (bit_and r.permissions (bit_or cap_grant cap_revoke_bit) == 0)
        then (eperm, k)
        else (if not (may_receive pid r.target_pid k)
            then (eperm, k)
            else (elim (cap_find_resource now pid resource_ipc cap_write r.target_pid k.caps) [
              | success ↦
                  let (ok, k') = declared now pid r.resource_type r.resource_id r.permissions k in
                  if ok then hand_over now pid r k' else (eperm, k')
              | refusal ↦ (eperm, deny now pid resource_ipc r.target_pid cap_write k)
            ])))
