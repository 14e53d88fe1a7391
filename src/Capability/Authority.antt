-- ===== src/Capability/Authority.antt =====
-- What a capability grants, and that the checks and lookups decide exactly this.
pub mod Grants
pub mod Lookup
