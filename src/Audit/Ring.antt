-- ===== src/Audit/Ring.antt =====
-- audit.c: the ring of records, and `audit_record` with the wrappers that the hook sites call.
-- `now` is what `timer_get_ticks` returns during the call, which runs with interrupts off.
use quantum_os.Prelude.{
  arith, ◌≡◌, ◌≤◌, false, ℕ, ◌+◌, ◌-◌, ◌%◌, ◌^◌, Bool, ◌&&◌, ltb, ◌==◌, if◌then◌else◌, update,
}
use quantum_os.Audit.Kind

-- AUDIT_LOG_ENTRIES
abbrev pub log_entries : ℕ
log_entries = 256

-- The verdicts.
abbrev pub v_ok : ℕ
v_ok = 1

abbrev pub v_eperm : ℕ
v_eperm = 2

-- CAP_RESOURCE_DEVICE
abbrev pub resource_device : ℕ
resource_device = 2

-- CAP_RESOURCE_PROCESS and CAP_EXECUTE, which `audit_spawn` records.
abbrev pub resource_process : ℕ
resource_process = 4

abbrev pub cap_execute : ℕ
cap_execute = 4

-- The arguments of `audit_record`, in its order.
pub record Event : Type 0 where
  pub kind : ℕ
  pub pid : ℕ
  pub verdict : ℕ
  pub resource_type : ℕ
  pub resource_id : ℕ
  pub permissions : ℕ

-- `audit_entry_t`; its event fields are those of an `Event`.
pub record Entry : Type 0 where
  pub seq : ℕ
  pub tick : ℕ
  pub event : Event
  pub open event use *
  pub count : ℕ

-- The statics of audit.c. The array `ring[256]` is a function of the index.
pub record Ledger : Type 0 where
  pub ring : ℕ → Entry
  pub total : ℕ
  pub coalesce_floor : ℕ

-- Whether the entry repeats the event.
unfoldable pub same : Entry → Event → Bool
same last e =
    last.kind == e.kind
    && (last.pid == e.pid
        && (last.verdict == e.verdict
            && (last.resource_type == e.resource_type
                && (last.resource_id == e.resource_id && last.permissions == e.permissions))))

-- The index of the most recent entry; used only where `total` is above the floor.
abbrev pub last_index : Ledger → ℕ
last_index l = (l.total - 1) % log_entries

-- The branch that bumps the last entry's count.
unfoldable pub coalesced : ℕ → Ledger → Ledger
coalesced now l =
    let last = l.ring (last_index l) in
    record l {
      ring =
          update l.ring (last_index l)
            (record last { count = (last.count + 1) % 2 ^ 32; tick = now });
    }

-- The branch that writes a new entry.
unfoldable pub appended : ℕ → Event → Ledger → Ledger
appended now e l = record l {
  ring =
      update l.ring (l.total % log_entries)
        (record { seq = l.total; tick = now; event = e; count = 1 });
  total = (l.total + 1) % 2 ^ 64;
}

-- The test of `audit_record`: the event repeats the last entry, which stands above the floor.
unfoldable pub repeats : Event → Ledger → Bool
repeats e l = ltb l.coalesce_floor l.total && same (l.ring (last_index l)) e

unfoldable pub audit_record : ℕ → Event → Ledger → Ledger
audit_record now e l = if repeats e l then coalesced now l else appended now e l

-- Nothing repeats while no entry stands above the floor.
pub repeats_above : (e : Event) (l : Ledger) → l.total ≤ l.coalesce_floor → repeats e l ≡ false
unfolding repeats
repeats_above e l h = ground arith

abbrev pub event_ok : ℕ → ℕ → ℕ → ℕ → ℕ → Event
event_ok kind pid rtype rid perms = record {
  kind = kind;
  pid = pid;
  verdict = v_ok;
  resource_type = rtype;
  resource_id = rid;
  permissions = perms;
}

abbrev pub audit_grant : ℕ → ℕ → ℕ → ℕ → ℕ → Ledger → Ledger
audit_grant now pid rtype rid perms = audit_record now (event_ok Kind.grant pid rtype rid perms)

abbrev pub audit_deny : ℕ → ℕ → ℕ → ℕ → ℕ → Ledger → Ledger
audit_deny now pid rtype rid perms =
    audit_record now (record (event_ok Kind.deny pid rtype rid perms) { verdict = v_eperm })

abbrev pub audit_spawn : ℕ → ℕ → ℕ → Ledger → Ledger
audit_spawn now parent_pid child_pid =
    audit_record now (event_ok Kind.spawn parent_pid resource_process child_pid cap_execute)

abbrev pub audit_revoke : ℕ → ℕ → ℕ → ℕ → ℕ → Ledger → Ledger
audit_revoke now pid rtype rid perms = audit_record now (event_ok Kind.revoke pid rtype rid perms)

abbrev pub audit_reap : ℕ → ℕ → ℕ → ℕ → ℕ → Ledger → Ledger
audit_reap now pid rtype rid perms = audit_record now (event_ok Kind.reap pid rtype rid perms)

abbrev pub audit_unlink : ℕ → ℕ → ℕ → ℕ → ℕ → Ledger → Ledger
audit_unlink now pid rtype rid perms = audit_record now (event_ok Kind.unlink pid rtype rid perms)
