-- ===== src/Qpu.antt =====
-- The broker of quantum jobs, kernel/src/qpu.c and kernel/include/kernel/qpu.h.
pub mod Jobs
pub mod Broker
pub mod Slots
pub mod Kept
pub mod Runs
pub mod Results
pub mod Death
pub mod Leak
pub mod Fetching
pub mod Calls
pub mod Examples
