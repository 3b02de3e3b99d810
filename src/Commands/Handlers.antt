-- ===== src/Commands/Handlers.antt =====
-- The handlers of internal/commands/handlers.go, over the router's other services. Go's `%q` and
-- `time.Parse`, the text of the time and the end of the process are parameters.
use safeswitch_router.Common.{
  ℕ, Bool, true, false, Option, none, some, List, [], ◌∷◌, ◌++◌, Bytes, bytes, length, ltb,
  if◌then◌else◌,
}
use safeswitch_router.Common.Json.{
  flag, num, text, object, Items, no_items, item, Fields, no_fields, field, field_of,
}
use safeswitch_router.Policy.{Bundle, ChildEffectiveState}
use safeswitch_router.Commands.{Answer, result, panics, Handler}
use safeswitch_router.Commands.Interfaces.{
  PolicySwapper, DnsReloader, TunnelManager, FirewallEnforcer, succeeded, attempt,
}
use safeswitch_router.Commands.Payloads.{
  Fallible, fine, failure, require_string, string_val, bool_val, as_items, string_slice_val,
  parse_time,
}

-- A child of `update_policy`; the other fields of the struct stay empty.
unfoldable pub child_of : Fields → ChildEffectiveState
child_of m = record {
  child_id = string_val m (bytes "child_id");
  device_mac = string_val m (bytes "device_mac");
  wireguard_public_key = string_val m (bytes "wireguard_public_key");
  wireguard_ip = string_val m (bytes "wireguard_ip");
  mode = string_val m (bytes "mode");
  lock_enabled = bool_val m (bytes "lock_enabled");
  dns_profile_id = string_val m (bytes "dns_profile_id");
  allowed_services = [];
  blocked_categories = string_slice_val m (bytes "blocked_categories");
}

-- Of the items that are no object none becomes a child.
unfoldable pub children_from : Items → List ChildEffectiveState
children_from no_items = []
children_from (item (object m) items) = child_of m ∷ children_from items
children_from (item v items) = children_from items

-- A time of the payload.
unfoldable pub require_time :
    (Bytes → Bytes) → (Bytes → Bytes → Fallible ℕ) → Fields → Bytes → Fallible ℕ
require_time quote parse payload key = elim (require_string quote payload key) [
  | failure e ↦ failure e
  | fine s ↦ elim (parse_time parse s) [
    | fine t ↦ fine t
    | failure e ↦
        failure (bytes "invalid " ++ (key ++ (bytes " " ++ (quote s ++ (bytes ": " ++ e)))))
  ]
]

abbrev pub paused_fields : Bytes → Bool → Bool → Fields
paused_fields mac paused enforced =
    field (bytes "mac") (text mac)
      (field (bytes "paused") (flag paused) (field (bytes "enforced") (flag enforced) no_fields))

abbrev pub paused_result : Bytes → Bool → Bool → Answer
paused_result mac paused enforced = result (some (paused_fields mac paused enforced))

abbrev pub reason_result : Bytes → Bytes → Answer
reason_result key reason =
    result (some (field key (flag false) (field (bytes "reason") (text reason) no_fields)))

-- `pubKey[:8]` of the log line panics on a shorter key.
abbrev pub logged : Bytes → Answer → Answer
logged pub_key answer = if ltb (length pub_key) 8 then panics else answer

module _ {W : Type 0} where
  unfoldable pub ping_handler : Bytes → Handler W
  ping_handler now payload w = (
    w,
    result
        (some (field (bytes "pong") (flag true) (field (bytes "timestamp") (text now) no_fields))),
  )

  module _ (quote : Bytes → Bytes) where
    unfoldable pub pause_device_handler : Option (FirewallEnforcer W) → Handler W
    pause_device_handler fw payload w =
        attempt [] (require_string quote payload (bytes "device_mac")) w (λ mac. elim fw [
          | none ↦ (w, paused_result mac true false)
          | some f ↦
              let ran = f.pause_device mac w in
              attempt (bytes "pause_device: ") (succeeded ran.1) ran.0
                (λ done. (ran.0, paused_result mac true true))
        ])

    unfoldable pub unpause_device_handler : Option (FirewallEnforcer W) → Handler W
    unpause_device_handler fw payload w =
        attempt [] (require_string quote payload (bytes "device_mac")) w (λ mac. elim fw [
          | none ↦ (w, paused_result mac false false)
          | some f ↦
              let ran = f.unpause_device mac w in
              attempt (bytes "unpause_device: ") (succeeded ran.1) ran.0
                (λ done. (ran.0, paused_result mac false true))
        ])

    unfoldable pub update_policy_handler :
        (Bytes → Bytes → Fallible ℕ) → PolicySwapper W → Handler W
    update_policy_handler parse policy payload w =
        attempt [] (require_string quote payload (bytes "version")) w (λ version.
          attempt [] (require_time quote parse payload (bytes "issued_at")) w (λ issued_at.
            attempt [] (require_time quote parse payload (bytes "expires_at")) w (λ expires_at.
              let children = children_from (as_items (field_of (bytes "children") payload)) in
              let bundle : Bundle = record {
                version = version;
                issued_at = issued_at;
                expires_at = expires_at;
                signature = string_val payload (bytes "signature");
                emergency_domains = [];
                children = children;
              } in
              let ran = policy.swap_bundle bundle w in
              attempt (bytes "swap bundle: ") (succeeded ran.1) ran.0 (λ done. (
                ran.0,
                result (
                    some (
                      field (bytes "version") (text version)
                        (field (bytes "children") (num (length children)) no_fields))),
              )))))

    unfoldable pub reload_dns_profile_handler : Option (DnsReloader W) → Handler W
    reload_dns_profile_handler dns payload w = elim dns [
      | none ↦ (w, reason_result (bytes "reloaded") (bytes "dns_server_not_running"))
      | some d ↦
          let ran = d.reload w in
          attempt (bytes "dns reload: ") (succeeded ran.1) ran.0
            (λ done. (ran.0, result (some (field (bytes "reloaded") (flag true) no_fields))))
    ]

    unfoldable pub add_peer_handler : Option (TunnelManager W) → Handler W
    add_peer_handler mgr payload w = elim mgr [
      | none ↦ (w, reason_result (bytes "added") (bytes "tunnel_manager_not_running"))
      | some t ↦ attempt [] (require_string quote payload (bytes "public_key")) w (λ pub_key.
          let ran =
            t.add_peer pub_key (string_val payload (bytes "device_mac"))
              (string_val payload (bytes "comment")) w in
          attempt (bytes "add_peer: ") ran.1 ran.0 (λ allowed_ip. (
            ran.0,
            logged pub_key (
                result (
                  some (
                    field (bytes "public_key") (text pub_key) (
                      field (bytes "allowed_ip") (text allowed_ip)
                        (field (bytes "added") (flag true) no_fields))))),
          )))
    ]

    unfoldable pub remove_peer_handler : Option (TunnelManager W) → Handler W
    remove_peer_handler mgr payload w = elim mgr [
      | none ↦ (w, reason_result (bytes "removed") (bytes "tunnel_manager_not_running"))
      | some t ↦ attempt [] (require_string quote payload (bytes "public_key")) w (λ pub_key.
          let ran = t.remove_peer pub_key w in
          attempt (bytes "remove_peer: ") (succeeded ran.1) ran.0 (λ done. (
            ran.0,
            logged pub_key (
                result (
                  some (
                    field (bytes "public_key") (text pub_key)
                      (field (bytes "removed") (flag true) no_fields)))),
          )))
    ]

  -- `exit` is the end of the process half a second later.
  unfoldable pub restart_handler : (W → W) → Handler W
  restart_handler exit payload w =
      (exit w, result (some (field (bytes "restarting") (flag true) no_fields)))
