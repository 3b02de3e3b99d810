-- ===== src/Relay/Broker/Devices.antt =====
-- Devices that come to internal/relay/broker.go.
use safeswitch_router.Common.{
  ℕ, ◌≡◌, refl, Bool, true, false, some, [], ◌∷◌, ◌++◌, arith, Bytes, length, ltb, same, same_refl,
  if◌then◌else◌,
}
use safeswitch_router.Relay.Broker.{
  ok, panic, Channels, set_channel, send_buf_size, try_send, Conn, NodeEntry, Session, Broker,
  node_of, find_session, drop_session, register_device, forward_to_node, unregister_node,
}
use safeswitch_router.Relay.Broker.Nodes.{unregister_node-twice}

-- The session that a device gets on a node.
abbrev session_on : NodeEntry → ℕ → Bytes → Bytes → Conn → Session
session_on e now family_id device_id dev = record {
  family_id = family_id;
  device_id = device_id;
  node_conn = some e.conn;
  dev_conn = some dev;
  created_at = now;
}

register_device-sessions :
    (now : ℕ) (family_id device_id : Bytes) (dev : Conn) (b after : Broker) (e : NodeEntry)
    → node_of family_id b.node_conns ≡ some e
    → register_device now family_id device_id dev b ≡ some after
    → (after.sessions
        ≡ session_on e now family_id device_id dev ∷ drop_session family_id device_id b.sessions)
      × (after.node_conns ≡ b.node_conns)
      × (after.channels ≡ b.channels)
unfolding register_device
register_device-sessions now family_id device_id dev b after e here done =
    (ground (arith, here, done), ground (arith, here, done), ground (arith, here, done))

-- After two devices of a family are registered, the leaving of the node that the family's sessions
-- stand on panics.
pub unregister_node-register_device :
    (now later : ℕ) (family_id device other node_id : Bytes) (dev dev' : Conn)
    (b middle after : Broker) (e : NodeEntry)
    → node_of family_id b.node_conns ≡ some e
    → same e.conn.node_id node_id ≡ true
    → same device other ≡ false
    → register_device now family_id device dev b ≡ some middle
    → register_device later family_id other dev' middle ≡ some after
    → unregister_node node_id after ≡ panic
unregister_node-register_device now later family_id device other node_id dev dev' b middle after e
      here root ne first second =
    let (s, n, _) = register_device-sessions now family_id device dev b middle e here first in
    let (t, _, _) =
      register_device-sessions later family_id other dev' middle after e (ground (arith, n, here))
        second in
    unregister_node-twice node_id after [] []
      (drop_session family_id other (drop_session family_id device b.sessions))
      (session_on e later family_id other dev') (session_on e now family_id device dev) e.conn
      (unfold drop_session in ground (arith, s, t, ne)) refl refl root

-- The queue with a packet behind it, if there is room.
abbrev pub queued : Channels → ℕ → Bytes → Channels
queued cs c pkt =
    if ltb (length (cs c).queue) send_buf_size
    then set_channel cs c (record (cs c) { queue = (cs c).queue ++ pkt ∷ [] })
    else cs

pub try_send-queued :
    (c : ℕ) (pkt : Bytes) (cs : Channels)
    → (cs c).closed ≡ false
    → (sent : Bool) × (try_send c pkt cs ≡ ok (queued cs c pkt, sent))
unfolding try_send
try_send-queued c pkt cs h = (ltb (length (cs c).queue) send_buf_size, ground (arith, h))

pub try_send-open :
    (c : ℕ) (pkt : Bytes) (cs : Channels)
    → try_send c pkt cs ≡ (
        if (cs c).closed
        then panic
        else ok (queued cs c pkt, ltb (length (cs c).queue) send_buf_size))
unfolding try_send
try_send-open c pkt cs = ground arith

-- What a device sends next after it was registered is put behind the queue of the connection of a
-- connected node of its family, if this is open and has room, and is dropped if it has none; no
-- other channel is touched.
pub forward_to_node-register_device :
    (now : ℕ) (family_id device_id pkt : Bytes) (dev : Conn) (b after : Broker) (e : NodeEntry)
    → node_of family_id b.node_conns ≡ some e
    → (b.channels e.conn.send).closed ≡ false
    → register_device now family_id device_id dev b ≡ some after
    → forward_to_node family_id device_id pkt after
      ≡ ok (record after { channels = queued b.channels e.conn.send pkt })
unfolding forward_to_node find_session
forward_to_node-register_device now family_id device_id pkt dev b after e here live done =
    let (s, _, kept) = register_device-sessions now family_id device_id dev b after e here done in
    let (sent, took) = try_send-queued e.conn.send pkt b.channels live in
    ground (arith, s, kept, took, same_refl family_id, same_refl device_id)
