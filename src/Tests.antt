-- ===== src/Tests.antt =====
-- Runs of the models on concrete inputs, and the theorems at inputs that meet their hypotheses.
mod Wire
mod Ecs
mod Lists
mod Resolving
mod Policies
mod Services
mod Relay
mod Commands
mod Tunnel
mod Controlsync
mod Presence
mod Cloud
mod Mirror
mod Nodes
mod Terminator
