-- ===== src/Manifest/Quota.antt =====
-- manifest.c: the quotas on spawns, quantum submissions and ticks.
use quantum_os.Prelude.{
  ℕ, ◌+◌, ◌^◌, ◌%◌, Bool, true, false, not, ◌&&◌, ◌||◌, ltb, leb, ◌==◌, if◌then◌else◌, update,
}
use quantum_os.Audit.{Ledger, audit_record}
use quantum_os.Audit.Kind
use quantum_os.Audit.Ring.{v_eperm, Event}
use quantum_os.Manifest.Table.{Intents, max_processes}

-- SPAWN_RESOURCE_ID, DEVICE_ID_QPU, and the classes and bits that a refused quota records.
abbrev pub spawn_resource_id : ℕ
spawn_resource_id = 0

abbrev pub device_id_qpu : ℕ
device_id_qpu = 0x5150

abbrev quota_event : ℕ → ℕ → ℕ → ℕ → Event
quota_event pid rtype rid perms = record {
  kind = Kind.quota;
  pid = pid;
  verdict = v_eperm;
  resource_type = rtype;
  resource_id = rid;
  permissions = perms;
}

-- A pid beyond the table passes; a refusal is recorded, as PROCESS and EXECUTE.
unfoldable pub manifest_spawn_precheck : ℕ → ℕ → Intents → Ledger → Bool × Ledger
manifest_spawn_precheck now pid t l =
    if leb max_processes pid
    then (true, l)
    else (if not (t pid).bound
          || ((t pid).spawn_max == 0 || ltb (t pid).spawn_used (t pid).spawn_max)
        then (true, l)
        else (false, audit_record now (quota_event pid 4 spawn_resource_id 4) l))

unfoldable pub manifest_spawn_charge : ℕ → Intents → Intents
manifest_spawn_charge pid t =
    let m = t pid in
    if leb max_processes pid
    then t
    else (if m.bound
        then update t pid (record m { spawn_used = (m.spawn_used + 1) % 2 ^ 32 })
        else t)

unfoldable pub manifest_spawn_channel : ℕ → Intents → Bool
manifest_spawn_channel pid t =
    if leb max_processes pid then false else ((t pid).bound && (t pid).spawn_channel)

-- As for spawns; a refusal is recorded as DEVICE and WRITE.
unfoldable pub manifest_qsub_precheck : ℕ → ℕ → Intents → Ledger → Bool × Ledger
manifest_qsub_precheck now pid t l =
    if leb max_processes pid
    then (true, l)
    else (if not (t pid).bound || ((t pid).qsub_max == 0 || ltb (t pid).qsub_used (t pid).qsub_max)
        then (true, l)
        else (false, audit_record now (quota_event pid 2 device_id_qpu 2) l))

unfoldable pub manifest_qsub_charge : ℕ → Intents → Intents
manifest_qsub_charge pid t =
    let m = t pid in
    if leb max_processes pid
    then t
    else (if m.bound then update t pid (record m { qsub_used = (m.qsub_used + 1) % 2 ^ 32 }) else t)

unfoldable pub manifest_tick : ℕ → Intents → Intents
manifest_tick pid t =
    let m = t pid in
    if ltb pid max_processes
    then update t pid (record m { cpu_ticks = (m.cpu_ticks + 1) % 2 ^ 64 })
    else t
