-- ===== src/Manifest.antt =====
-- Intent manifests, kernel/src/manifest.c and kernel/include/kernel/manifest.h.
pub mod Table
pub mod Quota
pub mod Bounds
pub mod Intent
pub mod Declares
pub mod Spending
pub mod Examples
