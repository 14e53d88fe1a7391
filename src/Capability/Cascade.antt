-- ===== src/Capability/Cascade.antt =====
-- The cascade of revocation: it frees exactly the slots that match and all that derive from them.
pub mod Shrink
pub mod Below
pub mod Release
pub mod Sweep
pub mod Loop
pub mod Total
pub mod Exact
