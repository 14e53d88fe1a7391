-- ===== src/Ipc.antt =====
-- Messages between processes, kernel/src/ipc/ipc.c and kernel/include/kernel/ipc.h.
pub mod Queue
pub mod State
pub mod Passing
pub mod Ports
pub mod Channels
pub mod Order
pub mod Fifo
pub mod Valid
pub mod Kept
pub mod PortsKept
pub mod ChannelsKept
pub mod Reach
pub mod Names
pub mod Delivery
pub mod Cleanup
pub mod Examples
