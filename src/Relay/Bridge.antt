-- ===== src/Relay/Bridge.antt =====
-- internal/relay/relay_udp_bridge.go: what the read loop does with one packet, on the broker whose
-- registry and fallback the bridge shares. An address is its text, which is the tag of the device.
-- The terminator, the dialling of an endpoint and the write to it are parameters. What leaves the
-- bridge is returned.
pub mod Paths
use safeswitch_router.Common.{
  ℕ, Bool, true, false, not, ◌&&◌, Option, none, some, List, [], ◌∷◌, ◌++◌, Bytes, length, ◌==◌,
  if◌then◌else◌,
}
use safeswitch_router.Common.Dict.{Dict, lookup, insert}
use safeswitch_router.Relay.Frames.{wrap_frame}
use safeswitch_router.Relay.Registry.{pick_healthy_node}
use safeswitch_router.Relay.Fallback.{
  endpoint, enter_fallback, exit_fallback, record_forwarded, record_dropped,
}
use safeswitch_router.Relay.Broker.{Run, ok, panic, ◌>>=◌, Broker, try_send}

-- `fallback_conns` has the endpoint that each device's socket was dialled to.
pub record Bridge : Type 0 where
  pub family_id : Bytes
  pub terminator : Bool
  pub client_addrs : Dict Bytes
  pub fallback_conns : Dict Bytes

unfoldable pub new_udp_bridge : Bytes → Bridge
new_udp_bridge family_id = record {
  family_id = family_id;
  terminator = false;
  client_addrs = [];
  fallback_conns = [];
}

unfoldable pub set_family_endpoint_resolver : Bridge → Bridge
set_family_endpoint_resolver br = record br { terminator = true }

-- The cloud is told that a family entered its fallback, a packet goes to a terminator, a reply to a
-- client.
pub data Output : Type 0 where
  told : Bytes → Output
  to_terminator : Bytes → Bytes → Output
  to_client : Bytes → Bytes → Output

module _ (ensure_family : Bytes → Option Bytes) (dial : Bytes → Bool)
    (write : Bytes → Bytes → Bool) where
  -- The endpoint of a new socket; `none` is an error.
  unfoldable pub dial_fallback : Bridge → Bytes → Bytes → Option Bytes
  dial_fallback br family_id static_endpoint =
      let where_to : Option Bytes =
        if br.terminator then ensure_family family_id else some static_endpoint in
      elim where_to [
        | none ↦ none
        | some e ↦ if length e == 0 then none else if dial e then some e else none
      ]

  -- The bridge behind, what was sent, and whether `nil` was returned for the error.
  unfoldable pub forward_to_fallback :
      Bridge → Bytes → Bytes → Bytes → Bytes → Bridge × List Output × Bool
  forward_to_fallback br family_id tag static_endpoint payload =
      elim (lookup tag br.fallback_conns) [
        | some e ↦
            if write e payload then (br, to_terminator e payload ∷ [], true) else (br, [], false)
        | none ↦ elim (dial_fallback br family_id static_endpoint) [
          | none ↦ (br, [], false)
          | some e ↦
              let br' = record br { fallback_conns = insert tag e br.fallback_conns } in
              if write e payload
              then (br', to_terminator e payload ∷ [], true)
              else (br', [], false)
        ]
      ]

  abbrev pub State : Type 0
  State = Bridge × Broker

  -- A packet with no healthy node.
  unfoldable pub take_fallback : Bridge → Broker → ℕ → Bytes → Bytes → State × List Output
  take_fallback br b now tag payload =
      let entered = enter_fallback now br.family_id b.fallback in
      let f = entered.0 in
      let told_so : List Output = if entered.1 && b.notifier then told br.family_id ∷ [] else [] in
      let sent = forward_to_fallback br br.family_id tag (endpoint f) payload in
      if length (endpoint f) == 0 && not br.terminator
      then ((br, record b { fallback = record_dropped f }), told_so)
      else if sent.2
      then ((sent.0, record b { fallback = record_forwarded f }), told_so ++ sent.1)
      else ((sent.0, record b { fallback = record_dropped f }), told_so ++ sent.1)

  -- One packet, from the address whose text is `tag`.
  unfoldable pub handle_packet : ℕ → Bytes → Bytes → State → Run (State × List Output)
  handle_packet now tag payload (br, b) =
      let br' = record br { client_addrs = insert tag tag br.client_addrs } in
      let f = (exit_fallback br.family_id b.fallback).0 in
      if length br.family_id == 0
      then ok ((br', b), [])
      else elim (pick_healthy_node now br.family_id b.registry) [
        | some a ↦
            try_send (b.registry.heap a).conn (wrap_frame tag payload) b.channels >>= λ (cs, sent).
            ok ((br', record b { channels = cs; fallback = f }), [])
        | none ↦ ok (take_fallback br' b now tag payload)
      ]

-- A reply of a node; `resolve` is the parse of an address, whose error drops the reply.
unfoldable pub deliver_to_client : (Bytes → Option Bytes) → Bridge → Bytes → Bytes → List Output
deliver_to_client resolve br tag payload = elim (lookup tag br.client_addrs) [
  | some addr ↦ to_client addr payload ∷ []
  | none ↦ elim (resolve tag) [ none ↦ [] | some addr ↦ to_client addr payload ∷ [] ]
]
