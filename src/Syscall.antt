-- ===== src/Syscall.antt =====
-- The authority gate of the system calls and the delegation call, kernel/src/syscall.c.
pub mod Gate
pub mod Delegate
pub mod Authority
pub mod Minting
pub mod Delegation
pub mod Usable
pub mod Exit
pub mod Waiting
pub mod Examples
