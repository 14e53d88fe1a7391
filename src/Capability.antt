-- ===== src/Capability.antt =====
-- Capabilities, kernel/src/capability.c and kernel/include/kernel/capability.h.
pub mod State
pub mod Revoke
pub mod Create
pub mod Withdraw
pub mod Check
pub mod Find
pub mod Invariant
pub mod Handles
pub mod Cascade
pub mod Mint
pub mod Authority
pub mod Reap
pub mod Withdrawal
pub mod History
pub mod Examples
