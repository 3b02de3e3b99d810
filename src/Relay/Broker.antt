-- ===== src/Relay/Broker.antt =====
-- internal/relay/broker.go. A connection is a number, under which its channel stands; sending on a
-- closed channel and closing one again are Go's panics. A session is only reached through the map,
-- so it stands there by value. Go visits a map in a random order; here it is the order of insertion.
-- The goroutines of the janitor and of the notifications are calls and events.
pub mod Devices
pub mod Nodes
use safeswitch_router.Common.{
  ℕ, ◌+◌, ◌-◌, Bool, true, false, not, ◌&&◌, ◌||◌, Option, none, some, List, [], ◌∷◌, ◌++◌, Bytes,
  bytes, length, ltb, leb, ◌==◌, same, any, if◌then◌else◌,
}
use safeswitch_router.Common.Dict.{Dict, lookup, insert, delete, has, is_some}
use safeswitch_router.Relay.Frames.{read_frame}
use safeswitch_router.Relay.Registry.{
  NodeHealth, NodeRegistry, new_node_registry, pref_primary, add, remove, touch, status,
}
use safeswitch_router.Relay.Fallback.{
  FallbackResolver, new_fallback_resolver, enter_fallback, exit_fallback,
}

pub data Run (A : Type 0) : Type 0 where
  ok : A → Run A
  panic : Run A

infixl 5 ◌>>=◌
abbrev pub ◌>>=◌ : {A B : Type 0} → Run A → (A → Run B) → Run B
ok a >>= f = f a
panic >>= f = panic

-- `chan []byte` with the buffer of `sendBufSize` packets.
pub record Channel : Type 0 where
  pub queue : List Bytes
  pub closed : Bool

abbrev pub send_buf_size : ℕ
send_buf_size = 256

abbrev pub Channels : Type 0
Channels = ℕ → Channel

unfoldable pub set_channel : Channels → ℕ → Channel → Channels
set_channel cs c ch d = if d == c then ch else cs d

-- `close(c)`
unfoldable pub close : ℕ → Channels → Run Channels
close c cs =
    if (cs c).closed then panic else ok (set_channel cs c (record (cs c) { closed = true }))

-- `select { case c <- pkt: default: }`, and whether the packet was taken.
unfoldable pub try_send : ℕ → Bytes → Channels → Run (Channels × Bool)
try_send c pkt cs =
    if (cs c).closed
    then panic
    else if leb send_buf_size (length (cs c).queue)
    then ok (cs, false)
    else ok (set_channel cs c (record (cs c) { queue = (cs c).queue ++ pkt ∷ [] }), true)

pub record Conn : Type 0 where
  pub send : ℕ
  pub node_id : Bytes

pub record NodeEntry : Type 0 where
  pub node_id : Bytes
  pub family_id : Bytes
  pub conn : Conn

-- With its key; a `nil` connection is `none`.
pub record Session : Type 0 where
  pub family_id : Bytes
  pub device_id : Bytes
  pub node_conn : Option Conn
  pub dev_conn : Option Conn
  pub created_at : ℕ

pub record Broker : Type 0 where
  pub channels : Channels
  pub node_conns : Dict NodeEntry
  pub sessions : List Session
  pub registry : NodeRegistry
  pub fallback : FallbackResolver
  -- Is a notifier set, and a bridge?
  pub notifier : Bool
  pub udp_bridge : Bool

unfoldable pub new_broker : Channels → Broker
new_broker cs = record {
  channels = cs;
  node_conns = [];
  sessions = [];
  registry = new_node_registry;
  fallback = new_fallback_resolver [];
  notifier = false;
  udp_bridge = false;
}

unfoldable pub set_fallback_endpoint : Bytes → Broker → Broker
set_fallback_endpoint endpoint b = record b { fallback = new_fallback_resolver endpoint }

unfoldable pub set_cloud_notifier : Bool → Broker → Broker
set_cloud_notifier set b = record b { notifier = set }

unfoldable pub set_udp_bridge : Bool → Broker → Broker
set_udp_bridge set b = record b { udp_bridge = set }

-- What leaves the broker: the cloud is told of a fallback, or the bridge is handed a reply.
pub data Event : Type 0 where
  notified : Bytes → Bool → Event
  delivered : Bytes → Bytes → Event

unfoldable pub notify_fallback : Bytes → Bool → Broker → List Event
notify_fallback family in_fallback b = if b.notifier then notified family in_fallback ∷ [] else []

unfoldable pub register_node : ℕ → Bytes → Bytes → Conn → Broker → Broker
register_node now node_id family_id conn b =
    let h : NodeHealth = record {
      node_id = node_id;
      family_id = family_id;
      conn = conn.send;
      pref = pref_primary;
      last_seen = 0;
      joined_at = 0;
      packets_in = 0;
      packets_out = 0;
    } in
    let entry : NodeEntry = record { node_id = node_id; family_id = family_id; conn = conn } in
    record b { node_conns = insert node_id entry b.node_conns; registry = add now h b.registry }

-- Does the session stand on this node?
unfoldable pub is_rooted : Bytes → Session → Bool
is_rooted node_id s = elim s.node_conn [ none ↦ false | some c ↦ same c.node_id node_id ]

unfoldable pub close_dev : Option Conn → Channels → Run Channels
close_dev none cs = ok cs
close_dev (some d) cs = close d.send cs

-- Both channels of a session are closed.
unfoldable pub close_session : Session → Channels → Run Channels
close_session s cs = elim s.node_conn [
  | none ↦ ok cs
  | some c ↦ close c.send cs >>= λ cs'. close_dev s.dev_conn cs'
]

-- The sessions that stay.
unfoldable pub close_rooted : Bytes → List Session → Channels → Run (List Session × Channels)
close_rooted node_id [] cs = ok ([], cs)
close_rooted node_id (s ∷ sessions) cs = elim (is_rooted node_id s) [
  | true ↦ close_session s cs >>= λ cs'. close_rooted node_id sessions cs'
  | false ↦ close_rooted node_id sessions cs >>= λ (kept, cs'). ok (s ∷ kept, cs')
]

unfoldable pub unregister_node : Bytes → Broker → Run Broker
unregister_node node_id b = close_rooted node_id b.sessions b.channels >>= λ (kept, cs).
    ok (record b {
      channels = cs;
      node_conns = delete node_id b.node_conns;
      sessions = kept;
      registry = (remove node_id b.registry).0;
    })

unfoldable pub touch_node : ℕ → Bytes → Broker → Broker
touch_node now node_id b = record b { registry = touch now node_id b.registry }

unfoldable pub node_of : Bytes → Dict NodeEntry → Option NodeEntry
node_of family_id [] = none
node_of family_id ((id, e) ∷ nodes) =
    if same e.family_id family_id then some e else node_of family_id nodes

abbrev pub has_key : Bytes → Bytes → Session → Bool
has_key family_id device_id s = same s.family_id family_id && same s.device_id device_id

unfoldable pub find_session : Bytes → Bytes → List Session → Option Session
find_session family_id device_id [] = none
find_session family_id device_id (s ∷ sessions) =
    if has_key family_id device_id s then some s else find_session family_id device_id sessions

unfoldable pub drop_session : Bytes → Bytes → List Session → List Session
drop_session family_id device_id [] = []
drop_session family_id device_id (s ∷ sessions) =
    let rest = drop_session family_id device_id sessions in
    if has_key family_id device_id s then rest else s ∷ rest

-- `none` is the error "no home node online".
unfoldable pub register_device : ℕ → Bytes → Bytes → Conn → Broker → Option Broker
register_device now family_id device_id dev b = elim (node_of family_id b.node_conns) [
  | none ↦ none
  | some e ↦
      let s : Session = record {
        family_id = family_id;
        device_id = device_id;
        node_conn = some e.conn;
        dev_conn = some dev;
        created_at = now;
      } in
      some (record b { sessions = s ∷ drop_session family_id device_id b.sessions })
]

unfoldable pub unregister_device : Bytes → Bytes → Broker → Run Broker
unregister_device family_id device_id b = elim (find_session family_id device_id b.sessions) [
  | none ↦ ok b
  | some s ↦ close_dev s.dev_conn b.channels >>= λ cs.
      ok (record b { channels = cs; sessions = drop_session family_id device_id b.sessions })
]

unfoldable pub forward_to_node : Bytes → Bytes → Bytes → Broker → Run Broker
forward_to_node family_id device_id pkt b = elim (find_session family_id device_id b.sessions) [
  | none ↦ ok b
  | some s ↦ elim s.node_conn [
    | none ↦ ok b
    | some c ↦ try_send c.send pkt b.channels >>= λ (cs, sent). ok (record b { channels = cs })
  ]
]

-- The reply that the bridge is handed: the payload of the frame.
unfoldable pub to_bridge : Bytes → Bytes → Broker → List Event
to_bridge device_id pkt b =
    if b.udp_bridge
    then (elim (read_frame pkt) [
      | none ↦ []
      | some (tag, payload) ↦ delivered device_id payload ∷ []
    ])
    else []

unfoldable pub forward_to_device : Bytes → Bytes → Bytes → Broker → Run (Broker × List Event)
forward_to_device family_id device_id pkt b = elim (find_session family_id device_id b.sessions) [
  | none ↦ ok (b, to_bridge device_id pkt b)
  | some s ↦ elim s.dev_conn [
    | none ↦ ok (b, to_bridge device_id pkt b)
    | some d ↦ try_send d.send pkt b.channels >>= λ (cs, sent). ok (record b { channels = cs }, [])
  ]
]

-- One family of the janitor's sweep.
unfoldable pub sweep_family : ℕ → Bytes → Broker → Broker × List Event
sweep_family now family b =
    let st = status now family b.registry in
    let entered = enter_fallback now family b.fallback in
    let left = exit_fallback family b.fallback in
    if st.healthy_count == 0 && st.has_fallback
    then (
      record b { fallback = entered.0 },
      if entered.1 then notify_fallback family true b else [],
    )
    else if ltb 0 st.healthy_count
    then (record b { fallback = left.0 }, if left.1 then notify_fallback family false b else [])
    else (b, [])

unfoldable pub families_of : Dict NodeEntry → Dict (Unit {0})
families_of [] = []
families_of ((id, e) ∷ nodes) = insert e.family_id tt (families_of nodes)

unfoldable pub sweep_families : ℕ → Dict (Unit {0}) → Broker → Broker × List Event
sweep_families now [] b = (b, [])
sweep_families now ((family, _) ∷ families) b =
    let first = sweep_family now family b in
    let rest = sweep_families now families first.0 in (rest.0, first.1 ++ rest.1)

unfoldable pub sweep_stale_families : ℕ → Broker → Broker × List Event
sweep_stale_families now b = sweep_families now (families_of b.node_conns) b

-- `cleanup`: sessions of more than ten minutes with no device.
unfoldable pub cleanup : ℕ → List Session → List Session
cleanup now [] = []
cleanup now (s ∷ sessions) =
    let rest = cleanup now sessions in
    if ltb 600000000000 (now - s.created_at) && not (is_some s.dev_conn) then rest else s ∷ rest
