-- ===== src/Lib.antt =====
-- Verification of the SafeSwitch router (Go), a family router that filters what children's devices
-- reach. Each device's DNS queries come to the node's resolver. It answers a blocked or paused one
-- with the address of the block page, and passes the others to an upstream server.
--
-- The parts and their files
--   internal/dns/wire.go: Dns/Wire (`parse_query`, `read_name`, `build_nxdomain`,
--     `build_servfail`, `build_sinkhole_a`), with the writing of messages that the source does not
--     have (names, questions) in its child modules, against which reading is compared.
--   internal/dns/ecs_strip.go: Dns/Ecs (`strip_ecs`, `strip_opt_option`, `skip_name`, `skip_rr`).
--   internal/dns/blocklist.go: Dns/Bloom (the Bloom filter over 64-bit FNV-1a hashes) and
--     Dns/Blocklist (`load`, `is_blocked`, `is_blocked_for_categories`, `category_for`); Dns/Labels
--     has the walk from a name to its parents that they share.
--   internal/dns/nrd_blocklist.go: Dns/Nrd (`reload`, `is_nrd`).
--   internal/dns/resolver.go and block_sink.go: Dns/Resolver (`resolve`, `forward`).
--   internal/policy/runtime.go and pkg/contract/policybundle: Policy (`swap_bundle`, `load_active`,
--     the lookups by tunnel address), which the resolver reads through `reader`.
--   internal/enforcer/failsafe_enforcer.go: Enforcer (`check_and_enter_failsafe` and the rest).
--   internal/sniproxy/sniproxy.go: Sniproxy (`handle`, `decide`), over the same blocklist.
--   internal/firewall: Firewall (`build_rules`) and Firewall/Enforcer (`sync`, `pause_device`).
--   internal/supervisor: Supervisor (`start`, `stop`).
--   internal/relay: Relay/Frames (`wrap_frame`), Relay/Registry (registry.go: which node takes a
--     family's packets), Relay/Fallback (fallback.go: which families have none), Relay/Broker
--     (broker.go: nodes, device sessions and the janitor, over the registry and the fallback),
--     Relay/Handler (handler.go: a connection's frames, handed to the broker), Relay/Bridge
--     (relay_udp_bridge.go: a device's packet goes to a node of the registry, or by the fallback to
--     a terminator) and Relay/Client (client.go: the home node's side).
--   internal/commands/executor.go and pkg/contract/commands: Commands (`enqueue`, `execute`).
--   internal/commands/handlers.go: Commands/Handlers, Commands/Profiles and Commands/Registration,
--     over the services' interfaces of Commands/Interfaces; Policy and Firewall stand behind two.
--   internal/tunnel/manager.go: Tunnel (`sync`, `add_peer`), the table of peers, and wgconf.go:
--     Tunnel/Interface (`sync_peers_diff`), the commands that bring the interface to it.
--   internal/controlsync/activity_writer.go: Controlsync/Activity, which takes the resolver's events.
--   internal/controlsync/client.go: Controlsync/Client (`do_with_retry`), the requests to the cloud.
--   internal/controlsync/blocklistsync.go and nrdsync.go: Controlsync/Blocklists
--     (`sync_blocklist_source`) and Controlsync/Nrd (`ingest_nrd_once`, `sync_nrd_blocklist`), the
--     feeds and their mirrors in SQLite (Controlsync/Tables), which Dns/Blocklist and Dns/Nrd load.
--   internal/controlsync/bundlesync.go and enforcementsync.go: Controlsync/Bundles (`fetch_bundle`,
--     `poll_and_enforce`), which swap the bundle of Policy.
--   internal/controlsync/commandpoll.go: Controlsync/Polling (`fetch_and_enqueue`, `drain_pending`),
--     over the ledger of Commands.
--   internal/controlsync/heartbeat.go: Controlsync/Heartbeat (`send_heartbeat`), which checks the
--     fail-safe of Enforcer; tunnel_stats.go: Controlsync/Stats.
--   internal/tunnel/health.go: Tunnel/Health (`parse_dump`).
--   internal/presence: Presence (`read_arp`, `read_leases`, `scan`).
--   internal/terminator/service.go: Terminator (`find_family`, `bring_up_family`, `publish_family`: the
--     three steps of EnsureFamily), the endpoints behind the relay's fallback.
--   internal/localclock/localclock.go: Localclock (`tick`).
--   Common has what they share: lists and byte strings over the native numbers, bit masks,
--   dictionaries for Go's maps, and the functions of Go's package strings. Dns/Packet and
--   Dns/Segments have the 16-bit words of a message and "these bytes stand at that offset".
--   Tests runs the definitions and the theorems on concrete messages and lists.
--
-- How code becomes a definition
--   A method of a struct is a function on a record of its fields that returns the new record. A Go
--   map is a dictionary; where Go visits one in random order, the result does not depend on it,
--   is a listing whose order means nothing, or is said there to depend on it (the broker's walks).
--   Bytes are numbers; a theorem that needs them below 256 says so. Slices are copied, which the
--   source does too where it writes. The locks and the atomic pointers of the blocklists only swap
--   whole tables, so that a call sees one table.
--   The resolver returns its events (`RecordBlock`) beside the answer. Log lines are left out.
--   The registry's maps hold pointers, which are addresses of a heap. A connection of the relay is a
--   number under which its channel stands, with its buffer; sending on a closed channel and closing
--   it again are the result `panic`.
--
-- Parameters
--   `unicode_lower` is Go's lower-casing of a text that is not ASCII; nothing is assumed of it.
--   `forward_once` is the exchange with one upstream server, `none` for its error. The rows that
--   the database answers are an argument of `load` and `reload`, with the error of a row, of the
--   query and of the iteration. The policy reader of the resolver is an argument too. JSON, the
--   peeking and TLS parsing of the proxy, and the success of iptables and of the services' starts are
--   parameters, named in the files that use them, and so are `wg`, Go's parsers of addresses and
--   times, `strings.TrimSpace` and `strings.Fields`.
--   The cloud is a parameter: each reply to a request, or a record of its requests with the laws that
--   PostgREST documents (Controlsync/Nrd/Requests). So are the statements of SQLite that fail, but
--   for the table of peers (Tunnel), where only the query for the free address may; a transaction
--   that does not commit changes nothing. Of the audit row of an ingest (Controlsync/Nrd) the body
--   of the PATCH is modelled, not its reply.
--
-- Loops and fuel
--   `read_name_loop` follows compression pointers with no bound in the source. Its fuel counts the
--   rounds, and `stuck` says that it is still running then. Among the results below are one that says
--   how much fuel is enough without pointers, and one with a message on which none is enough.
--   `skip_name_loop` and `scan_options` move forward by a byte at least and stand in the source
--   under a bound on the offset: their fuel is the number of bytes left, which is enough.
--   `fetch_all_nrd_domains` has one unit for each request; one more than the table has rows is enough.
--   The walks to parent domains recurse on the list of labels.
--
-- Not modelled: sockets, HTTP, SQL and logs, cryptography and key files, the construction of the
-- services, and the components that are only calls of these: the servers of the block page, the
-- API, enrollment, the terminator's WireGuard device, UPnP, health, and controlsync's cache of
-- family configurations.
-- The timers and tickers of controlsync are left out: a tick is a call.
pub mod Commands
pub mod Common
pub mod Controlsync
pub mod Dns
pub mod Enforcer
pub mod Firewall
pub mod Localclock
pub mod Policy
pub mod Presence
pub mod Relay
pub mod Sniproxy
pub mod Supervisor
pub mod Terminator
pub mod Tests
pub mod Tunnel
