-- ===== src/Dns.antt =====
-- Package internal/dns: the wire format, the option stripping, the blocklists and the resolver.
pub mod Packet
pub mod Segments
pub mod Wire
pub mod Ecs
pub mod Labels
pub mod Bloom
pub mod Blocklist
pub mod Nrd
pub mod Resolver
