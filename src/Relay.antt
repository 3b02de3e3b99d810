-- ===== src/Relay.antt =====
-- internal/relay: the traffic between children's devices, home nodes and the fallback terminator.
pub mod Frames
pub mod Registry
pub mod Fallback
pub mod Handler
pub mod Client
pub mod Bridge
pub mod Broker
