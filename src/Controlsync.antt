-- ===== src/Controlsync.antt =====
-- internal/controlsync: what the node tells the cloud, and what it takes from it.
pub mod Activity
pub mod Client
pub mod Tables
pub mod Blocklists
pub mod Nrd
pub mod Bundles
pub mod Heartbeat
pub mod Polling
pub mod Stats
