-- ===== src/Manifest/Table.antt =====
-- manifest.c: the table of manifests, binding, granting and checking. Each call brackets its stores
-- with interrupts off, or is made with interrupts off, so it is one step here.
use quantum_os.Prelude.{
  ℕ, ◌+◌, ◌^◌, ◌%◌, Bool, true, false, not, ◌&&◌, Option, none, some, ltb, leb, ◌==◌, if◌then◌else◌,
  update, find_first,
}
use quantum_os.Audit.{Ledger, audit_record}
use quantum_os.Audit.Kind
use quantum_os.Audit.Ring.{v_eperm}

-- MAX_PROCESSES and MANIFEST_MAX_ENTRIES
abbrev pub max_processes : ℕ
max_processes = 256

abbrev pub max_entries : ℕ
max_entries = 8

-- `manifest_entry_t`
pub record Row : Type 0 where
  pub resource_type : ℕ
  pub resource_id : ℕ
  pub permissions : ℕ

-- `manifest_t`, without its padding byte. The array `entries[8]` is a function of the index.
pub record Manifest : Type 0 where
  pub bound : Bool
  pub entry_count : ℕ
  pub spawn_channel : Bool
  pub spawn_max : ℕ
  pub spawn_used : ℕ
  pub cpu_limit : ℕ
  pub cpu_ticks : ℕ
  pub qsub_max : ℕ
  pub qsub_used : ℕ
  pub entries : ℕ → Row

-- `manifest_table[256]`, by pid.
abbrev pub Intents : Type 0
Intents = ℕ → Manifest

-- What `memset` to zero leaves.
abbrev pub empty_manifest : Manifest
empty_manifest = record {
  bound = false;
  entry_count = 0;
  spawn_channel = false;
  spawn_max = 0;
  spawn_used = 0;
  cpu_limit = 0;
  cpu_ticks = 0;
  qsub_max = 0;
  qsub_used = 0;
  entries = λ _. record { resource_type = 0; resource_id = 0; permissions = 0 };
}

-- The manifest as it is bound: marked, and its count clamped.
abbrev pub as_bound : Manifest → Manifest
as_bound m = record m {
  bound = true;
  entry_count = if ltb max_entries m.entry_count then max_entries else m.entry_count;
}

-- `none` is a null pointer.
unfoldable pub manifest_bind : ℕ → Option Manifest → Intents → Intents
manifest_bind pid none t = t
manifest_bind pid (some m) t = if leb max_processes pid then t else update t pid (as_bound m)

unfoldable pub manifest_clear : ℕ → Intents → Intents
manifest_clear pid t = if leb max_processes pid then t else update t pid empty_manifest

-- The first row of a manifest on this resource.
unfoldable pub row_of : ℕ → ℕ → Manifest → Option ℕ
row_of rtype rid m =
    find_first m.entry_count 0
      (λ i. (m.entries i).resource_type == rtype && (m.entries i).resource_id == rid)

-- The count is a byte.
unfoldable pub append_row : ℕ → ℕ → ℕ → Manifest → Manifest
append_row rtype rid perms m = record m {
  entries =
      update m.entries m.entry_count
        (record { resource_type = rtype; resource_id = rid; permissions = perms });
  entry_count = (m.entry_count + 1) % 2 ^ 8;
}

unfoldable pub grant_row : ℕ → ℕ → ℕ → Manifest → Bool × Manifest
grant_row rtype rid perms m = if not m.bound then (false, m) else (elim (row_of rtype rid m) [
  | some i ↦ (true, m)
  | none ↦
      if ltb m.entry_count max_entries then (true, append_row rtype rid perms m) else (false, m)
])

unfoldable pub manifest_grant : ℕ → ℕ → ℕ → ℕ → Intents → Bool × Intents
manifest_grant pid rtype rid perms t =
    if leb max_processes pid
    then (false, t)
    else (let (done, m) = grant_row rtype rid perms (t pid) in (done, update t pid m))

unfoldable pub manifest_has_room : ℕ → Intents → Bool
manifest_has_room pid t =
    if leb max_processes pid then false else ((t pid).bound && ltb (t pid).entry_count max_entries)

unfoldable pub manifest_over_budget : ℕ → Intents → Bool
manifest_over_budget pid t =
    if leb max_processes pid
    then false
    else ((t pid).bound
        && (not ((t pid).cpu_limit == 0) && leb (t pid).cpu_limit (t pid).cpu_ticks))

-- Whether the manifest of `pid` lets the resource pass, with no record written.
unfoldable pub allows : ℕ → ℕ → ℕ → Intents → Bool
allows pid rtype rid t =
    if leb max_processes pid
    then true
    else (if not (t pid).bound
        then true
        else (elim (row_of rtype rid (t pid)) [ none ↦ false | some i ↦ true ]))

-- A refusal is recorded.
unfoldable pub manifest_check : ℕ → ℕ → ℕ → ℕ → ℕ → Intents → Ledger → Bool × Ledger
manifest_check now pid rtype rid perms t l = if allows pid rtype rid t then (true, l) else (
  false,
  audit_record now
      (record {
        kind = Kind.mdeny;
        pid = pid;
        verdict = v_eperm;
        resource_type = rtype;
        resource_id = rid;
        permissions = perms;
      })
      l,
)
