-- ===== src/Relay/Handler.antt =====
-- internal/relay/handler.go: who may connect, and what is done with a packet that is read. The
-- sockets, the write loop and the tickers are left out.
use safeswitch_router.Common.{
  ℕ, ◌<◌, ◌≡◌, true, not, ◌||◌, Option, none, some, List, [], ◌∷◌, arith, Bytes, length, ◌==◌, same,
  if◌then◌else◌, Option-cases, inl, inr,
}
use safeswitch_router.Relay.Frames.{
  frame_type_data, frame_type_ping, frame_type_pong, wrap_frame, read_frame, read_frame-wrap_frame,
}
use safeswitch_router.Relay.Broker.{
  Run, ok, panic, ◌>>=◌, try_send, Conn, Session, Broker, Event, delivered, register_node,
  register_device, find_session, to_bridge, forward_to_node, forward_to_device,
}
use safeswitch_router.Relay.Broker.Devices.{queued, try_send-open}

-- The first lines of `handleNodeConn`; `none` is a connection that is closed at once.
unfoldable pub handle_node_conn : Bytes → ℕ → Bytes → Bytes → Bytes → ℕ → Broker → Option Broker
handle_node_conn node_token now node_id family_id token channel b =
    if length node_id == 0 || length family_id == 0
    then none
    else if not (same token node_token)
    then none
    else some (register_node now node_id family_id (record { send = channel; node_id = node_id }) b)

-- The first lines of `handleDeviceConn`.
unfoldable pub handle_device_conn : Bytes → ℕ → Bytes → Bytes → Bytes → ℕ → Broker → Option Broker
handle_device_conn node_token now family_id device_id token channel b =
    if length family_id == 0 || length device_id == 0 || length token == 0
    then none
    else if not (same token node_token)
    then none
    else register_device now family_id device_id (record { send = channel; node_id = [] }) b

-- A data packet of a node goes to the device whose tag it has.
unfoldable pub receive_from_node : Bytes → Bytes → Broker → Run (Broker × List Event)
receive_from_node family_id pkt b = elim (read_frame pkt) [
  | none ↦ ok (b, [])
  | some (device_id, payload) ↦
      forward_to_device family_id device_id (wrap_frame device_id payload) b
]

-- A data packet of a device goes to its node under the device's own tag.
unfoldable pub receive_from_device : Bytes → Bytes → Bytes → Broker → Run Broker
receive_from_device family_id device_id pkt b = elim (read_frame pkt) [
  | none ↦ ok b
  | some (tag, payload) ↦ forward_to_node family_id device_id (wrap_frame device_id payload) b
]

-- One round of `runRelayLoop` on the connection with this channel: a ping is answered by a pong if
-- there is room, a data packet is handed on, and any other is ignored.
unfoldable pub relay_round : (Bytes → Broker → Run Broker) → ℕ → Bytes → Broker → Run Broker
relay_round on_recv channel [] b = ok b
relay_round on_recv channel (kind ∷ rest) b =
    if kind == frame_type_ping
    then (try_send channel (frame_type_pong ∷ 0 ∷ 0 ∷ []) b.channels >>= λ (cs, sent).
        ok (record b { channels = cs }))
    else if kind == frame_type_data
    then on_recv (kind ∷ rest) b
    else ok b

-- The connection of the device's session.
abbrev device_conn : Option Session → Option Conn
device_conn none = none
device_conn (some s) = s.dev_conn

-- While a bridge is set, a frame of a node whose tag is shorter than 65536 bytes is handed to the
-- bridge as the device's tag and the payload that the node framed if the device has no session, or
-- one without a connection; if it has one, the frame is put as it came behind the queue of the
-- device's connection if there is room, and the relay panics if the connection's channel is closed.
pub receive_from_node-wrap_frame :
    (family_id device_id payload : Bytes) (b : Broker)
    → length device_id < 65536
    → b.udp_bridge ≡ true
    → receive_from_node family_id (wrap_frame device_id payload) b
      ≡ (elim (device_conn (find_session family_id device_id b.sessions)) [
        | none ↦ ok (b, delivered device_id payload ∷ [])
        | some d ↦
            if (b.channels d.send).closed
            then panic
            else ok (
              record b { channels = queued b.channels d.send (wrap_frame device_id payload) },
              [],
            )
      ])
unfolding receive_from_node forward_to_device to_bridge
receive_from_node-wrap_frame family_id device_id payload b short set =
    let back = read_frame-wrap_frame device_id payload short in
    elim (Option-cases (find_session family_id device_id b.sessions)) [
      | inl absent ↦ ground (arith, back, absent, set)
      | inr (s, here) ↦ elim (Option-cases s.dev_conn) [
        | inl gone ↦ ground (arith, back, here, gone, set)
        | inr (d, dev) ↦
            ground (
              arith,
              back,
              here,
              dev,
              try_send-open d.send (wrap_frame device_id payload) b.channels,
            )
      ]
    ]
