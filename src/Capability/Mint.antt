-- ===== src/Capability/Mint.antt =====
-- What `cap_create` and `cap_derive` do on every branch.
pub mod Slots
pub mod Create
pub mod Derive
