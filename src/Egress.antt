-- ===== src/Egress.antt =====
-- The egress grant, kernel/src/egress.c and kernel/include/kernel/egress.h.
pub mod State
pub mod Parse
pub mod Shorter
pub mod Ends
pub mod Grant
pub mod Frames
pub mod Allowed
pub mod Spent
pub mod Budget
pub mod Offer
pub mod Console
pub mod Examples
