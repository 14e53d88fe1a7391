-- ===== src/Audit.antt =====
-- The capability authority ledger, kernel/src/audit.c and kernel/include/kernel/audit.h.
pub mod Kind
pub mod Ring
pub mod Blob
pub mod Fields
pub mod Durable
pub mod History
pub mod Flood
pub mod Examples
pub use Ring.{
  Event, Entry, Ledger, same, coalesced, appended, audit_record, audit_grant, audit_deny,
  audit_spawn, audit_revoke, audit_reap, audit_unlink,
}
