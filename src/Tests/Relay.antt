-- ===== src/Tests/Relay.antt =====
-- internal/relay on small inputs.
use safeswitch_router.Common.{
  ℕ, ◌+◌, ◌^◌, ◌%◌, ◌≡◌, refl, Bool, true, false, not, ◌&&◌, Option, none, some, [], ◌∷◌, ◌++◌,
  arith, Bytes, bytes, same, if◌then◌else◌,
}
use safeswitch_router.Common.Dict.{lookup, insert}
use safeswitch_router.Relay.Registry.{
  NodeHealth, NodeRegistry, new_node_registry, members, add, pick_healthy_node, less, put_sorted,
  sort_from, rebuild_family_index_locked, stamped, write, is_healthy, first_healthy, index_of,
}
use safeswitch_router.Relay.Registry.Order.{IsBest}
use safeswitch_router.Relay.Registry.Index.{Reachable, made, added}
use safeswitch_router.Relay.Registry.Picks.{pick_healthy_node-Reachable}
use safeswitch_router.Relay.Fallback.{FallbackResolver, is_active_family}
use safeswitch_router.Relay.Broker.{
  ok, panic, Channels, Conn, NodeEntry, Session, Broker, new_broker, set_udp_bridge,
  set_cloud_notifier, register_node, register_device, unregister_node, node_of, drop_session,
}
use safeswitch_router.Relay.Broker.Devices.{unregister_node-register_device}
use safeswitch_router.Relay.Bridge.{Bridge, new_udp_bridge, told, to_terminator, handle_packet}
use safeswitch_router.Relay.Bridge.Paths.{handle_packet-none}

abbrev payload : Bytes
payload = 69 ∷ 0 ∷ []

-- Of pref 1 for a primary node.
abbrev node : Bytes → ℕ → NodeHealth
node id pref = record {
  node_id = id;
  family_id = bytes "f1";
  conn = 0;
  pref = pref;
  last_seen = 0;
  joined_at = 0;
  packets_in = 0;
  packets_out = 0;
}

-- A secondary node, and a primary one that joined later.
abbrev two_nodes : NodeRegistry
two_nodes = add 20 (node (bytes "n2") 1) (add 10 (node (bytes "n1") 0) new_node_registry)

abbrev two_nodes-Reachable : Reachable two_nodes
two_nodes-Reachable =
    added 20 (node (bytes "n2") 1) (add 10 (node (bytes "n1") 0) new_node_registry)
      (unfold add new_node_registry rebuild_family_index_locked stamped write lookup insert same in
        refl)
      (added 10 (node (bytes "n1") 0) new_node_registry (unfold new_node_registry lookup in refl)
        made)

pick_primary : pick_healthy_node 30 (bytes "f1") two_nodes ≡ some 1
unfolding pick_healthy_node add new_node_registry rebuild_family_index_locked stamped write lookup
    insert same members sort_from put_sorted less first_healthy is_healthy index_of
pick_primary = refl

pick_healthy_node-Reachable_example :
    IsBest two_nodes.heap 30
      (members two_nodes.heap (bytes "f1") two_nodes.by_node)
      (pick_healthy_node 30 (bytes "f1") two_nodes)
pick_healthy_node-Reachable_example =
    pick_healthy_node-Reachable 30 (bytes "f1") two_nodes two_nodes-Reachable

abbrev no_channels : Channels
no_channels c = record { queue = []; closed = false }

abbrev node_conn : Conn
node_conn = record { send = 0; node_id = bytes "n1" }

abbrev dev_conn : ℕ → Conn
dev_conn c = record { send = c; node_id = [] }

abbrev start : Broker
start =
    register_node 10 (bytes "n1") (bytes "f1") node_conn
      (set_udp_bridge true (set_cloud_notifier true (new_broker no_channels)))

abbrev entry : NodeEntry
entry = record { node_id = bytes "n1"; family_id = bytes "f1"; conn = node_conn }

abbrev session : ℕ → Bytes → ℕ → Session
session now device c = record {
  family_id = bytes "f1";
  device_id = device;
  node_conn = some node_conn;
  dev_conn = some (dev_conn c);
  created_at = now;
}

abbrev one_device : Broker
one_device = record start { sessions = session 20 (bytes "d1") 1 ∷ [] }

abbrev two_devices : Broker
two_devices = record start { sessions = session 30 (bytes "d2") 2 ∷ session 20 (bytes "d1") 1 ∷ [] }

start_entry : node_of (bytes "f1") start.node_conns ≡ some entry
unfolding node_of register_node set_udp_bridge set_cloud_notifier new_broker insert same
start_entry = refl

first_device : register_device 20 (bytes "f1") (bytes "d1") (dev_conn 1) start ≡ some one_device
unfolding register_device drop_session node_of register_node set_udp_bridge set_cloud_notifier
    new_broker insert same
first_device = refl

second_device :
    register_device 30 (bytes "f1") (bytes "d2") (dev_conn 2) one_device ≡ some two_devices
unfolding register_device drop_session node_of register_node set_udp_bridge set_cloud_notifier
    new_broker insert same
second_device = refl

unregister_node-register_device_example : unregister_node (bytes "n1") two_devices ≡ panic
unfolding same
unregister_node-register_device_example =
    unregister_node-register_device 20 30 (bytes "f1") (bytes "d1") (bytes "d2") (bytes "n1")
      (dev_conn 1) (dev_conn 2) start one_device two_devices entry start_entry refl refl
      first_device second_device

abbrev bridge : Bridge
bridge = new_udp_bridge (bytes "f1")

abbrev ensure_family : Bytes → Option Bytes
ensure_family family = none

abbrev dials : Bytes → Bool
dials e = true

abbrev writes : Bytes → Bytes → Bool
writes e pkt = true

abbrev lonely : Broker
lonely = set_cloud_notifier true (new_broker no_channels)

handle_packet-none_example :
    (br' : Bridge) × (f : FallbackResolver) × (e : Bytes) × (forwarded : Bool) × (handle_packet
        ensure_family dials writes 20
        (bytes "d1")
        payload
        (bridge, lonely)
      ≡ ok (
        (br', record lonely { fallback = f }),
        (if not (is_active_family lonely.fallback bridge.family_id) && lonely.notifier
              then told bridge.family_id ∷ []
              else [])
            ++ (if forwarded then to_terminator e payload ∷ [] else []),
      ))
    × (is_active_family f bridge.family_id ≡ true)
    × (f.packets_forwarded ≡ (
        if forwarded
        then (lonely.fallback.packets_forwarded + 1) % 2 ^ 64
        else lonely.fallback.packets_forwarded))
    × (f.packets_dropped ≡ (
        if forwarded
        then lonely.fallback.packets_dropped
        else (lonely.fallback.packets_dropped + 1) % 2 ^ 64))
unfolding new_udp_bridge pick_healthy_node set_cloud_notifier new_broker new_node_registry
    first_healthy index_of lookup
handle_packet-none_example =
    handle_packet-none ensure_family dials writes 20 (bytes "d1") payload bridge lonely
      (omega arith) refl
