-- ===== src/Relay/Bridge/Paths.antt =====
-- Which path a packet takes through internal/relay/relay_udp_bridge.go, and how it is counted.
use safeswitch_router.Common.{
  ℕ, ◌+◌, ◌^◌, ◌%◌, ◌<◌, ◌≡◌, Bool, true, false, not, ◌&&◌, Option, none, some, [], ◌∷◌, ◌++◌,
  arith, Bytes, length, ◌==◌, same_refl, if◌then◌else◌, Option-cases, inl, inr,
}
use safeswitch_router.Common.Dict.{lookup, insert}
use safeswitch_router.Relay.Frames.{wrap_frame}
use safeswitch_router.Relay.Registry.{pick_healthy_node}
use safeswitch_router.Relay.Fallback.{
  FallbackResolver, endpoint, enter_fallback, exit_fallback, record_forwarded, record_dropped,
  is_active_family, is_active_family-enter_fallback,
}
use safeswitch_router.Relay.Broker.{ok, Broker}
use safeswitch_router.Relay.Broker.Devices.{queued, try_send-queued}
use safeswitch_router.Relay.Bridge.{
  Bridge, told, to_terminator, dial_fallback, forward_to_fallback, take_fallback, handle_packet,
}

-- What is sent to a terminator, by whether it succeeds.
forward_to_fallback-sent :
    (ensure_family : Bytes → Option Bytes) (dial : Bytes → Bool) (write : Bytes → Bytes → Bool)
    (br : Bridge) (family_id tag endpoint payload : Bytes)
    → (e : Bytes) × ((forward_to_fallback ensure_family dial write br family_id tag endpoint
          payload).1
        ≡ (if (forward_to_fallback ensure_family dial write br family_id tag endpoint payload).2
            then to_terminator e payload ∷ []
            else []))
unfolding forward_to_fallback
forward_to_fallback-sent ensure_family dial write br family_id tag endpoint payload =
    elim (Option-cases (lookup tag br.fallback_conns)) [
      | inr (e, h) ↦ (e, ground (arith, h))
      | inl h ↦ elim (Option-cases (dial_fallback ensure_family dial write br family_id endpoint)) [
        | inl k ↦ ([], ground (arith, h, k))
        | inr (e, k) ↦ (e, ground (arith, h, k))
      ]
    ]

enter_fallback-counts :
    (now : ℕ) (family : Bytes) (f : FallbackResolver)
    → ((enter_fallback now family f).0.packets_forwarded ≡ f.packets_forwarded)
      × ((enter_fallback now family f).0.packets_dropped ≡ f.packets_dropped)
unfolding enter_fallback
enter_fallback-counts now family f = (ground arith, ground arith)

module _ (ensure_family : Bytes → Option Bytes) (dial : Bytes → Bool) (write : Bytes → Bytes → Bool)
    (now : ℕ) (tag payload : Bytes) (br : Bridge) (b : Broker) where
  -- With a healthy node a packet is framed with its device's tag and put behind the queue of the
  -- node's connection, if this is open and has room; the family is in its fallback no more, and
  -- nothing is told to the cloud, also if it was before.
  pub handle_packet-some :
      (a : ℕ)
      → 0 < length br.family_id
      → pick_healthy_node now br.family_id b.registry ≡ some a
      → (b.channels (b.registry.heap a).conn).closed ≡ false
      → handle_packet ensure_family dial write now tag payload (br, b)
        ≡ ok (
          (
            record br { client_addrs = insert tag tag br.client_addrs },
            record b {
              channels = queued b.channels (b.registry.heap a).conn (wrap_frame tag payload);
              fallback = (exit_fallback br.family_id b.fallback).0;
            },
          ),
          [],
        )
  unfolding handle_packet
  handle_packet-some a h picked live =
      let (sent, took) =
        try_send-queued (b.registry.heap a).conn (wrap_frame tag payload) b.channels live in
      ground (arith, h, picked, took)

  -- With no healthy node a packet puts its family into the fallback, where it stays; it counts as
  -- forwarded if it is the one output to a terminator, and as dropped if there is none; the cloud is
  -- told exactly if the family was not in the fallback before and there is a notifier.
  pub handle_packet-none :
      0 < length br.family_id
      → pick_healthy_node now br.family_id b.registry ≡ none
      → (br' : Bridge) × (f : FallbackResolver) × (e : Bytes) × (forwarded : Bool) × (handle_packet
            ensure_family dial write now tag payload
            (br, b)
          ≡ ok (
            (br', record b { fallback = f }),
            (if not (is_active_family b.fallback br.family_id) && b.notifier
                  then told br.family_id ∷ []
                  else [])
                ++ (if forwarded then to_terminator e payload ∷ [] else []),
          ))
        × (is_active_family f br.family_id ≡ true)
        × (f.packets_forwarded ≡ (
            if forwarded
            then (b.fallback.packets_forwarded + 1) % 2 ^ 64
            else b.fallback.packets_forwarded))
        × (f.packets_dropped ≡ (
            if forwarded
            then b.fallback.packets_dropped
            else (b.fallback.packets_dropped + 1) % 2 ^ 64))
  unfolding handle_packet take_fallback is_active_family record_forwarded record_dropped
  handle_packet-none h picked =
      let fam = br.family_id in
      let seen : Bridge = record br { client_addrs = insert tag tag br.client_addrs } in
      let f = (enter_fallback now fam b.fallback).0 in
      let off = length (endpoint f) == 0 && not br.terminator in
      let sent = forward_to_fallback ensure_family dial write seen fam tag (endpoint f) payload in
      let (e, shape) =
        forward_to_fallback-sent ensure_family dial write seen fam tag (endpoint f) payload in
      let forwarded = not off && sent.2 in
      let (active, changed, _, _) = is_active_family-enter_fallback now fam fam b.fallback in
      let (fwd, drp) = enter_fallback-counts now fam b.fallback in
      (
        if off then seen else sent.0,
        if forwarded then record_forwarded f else record_dropped f,
        e,
        forwarded,
        ground (arith, h, picked, shape, changed),
        ground (arith, active, same_refl fam),
        ground (arith, fwd),
        ground (arith, drp),
      )
