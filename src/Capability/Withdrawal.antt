-- ===== src/Capability/Withdrawal.antt =====
-- `cap_revoke`: who may withdraw a capability, and what goes with it.
pub mod Ancestors
pub mod Released
pub mod Outcome
