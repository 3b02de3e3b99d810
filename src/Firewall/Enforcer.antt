-- ===== src/Firewall/Enforcer.antt =====
-- internal/firewall/enforcer.go. The commands run so far, oldest first, are passed along as the log.
-- Whether iptables runs a command without an error is the parameter `succeeds`, which sees the log
-- before it. The row of the table of peers is the parameter `peer_ip` (`none` for its error).
use safeswitch_router.Common.{
  Bool, true, false, ◌&&◌, Option, none, some, List, [], ◌∷◌, ◌++◌, map, Bytes, bytes, length, ltb,
  ◌==◌, same, if◌then◌else◌,
}
use safeswitch_router.Common.Text.{has_prefix}
use safeswitch_router.Firewall.{
  Args, Rule, build_rules, state_paused, state_full_tunnel, state_service_only, state_full_access,
  ensure_forward_jump, insert_forward_jump, chain_ensure_args, chain_flush_args,
}

pub record Child : Type 0 where
  pub device_id : Bytes
  pub child_id : Bytes
  pub device_mac : Bytes
  pub wireguard_public_key : Bytes
  pub wireguard_ip : Bytes
  pub display_name : Bytes
  pub paused : Bool
  pub route_mode : Bytes

pub record RouteProfileReader : Type 0 where
  pub route_profile_for_mac : Bytes → Bytes
  pub route_profile_for_key : Bytes → Bytes

-- Nil functions and readers are `none`.
pub record Enforcer : Type 0 where
  pub route_profile : Option RouteProfileReader
  pub dev_mode : Bool
  pub bundle_provider : Option (List Child)

-- `switch p`: no state for any other profile.
abbrev pub profile_state : Bytes → Option Bytes
profile_state p =
    if same p (bytes "full_tunnel")
    then some state_full_tunnel
    else if same p (bytes "service_only")
    then some state_service_only
    else if same p (bytes "blocked")
    then some state_paused
    else none

-- What the bundle says.
abbrev pub bundle_state : Child → Bytes
bundle_state child =
    if child.paused
    then state_paused
    else if same child.route_mode (bytes "full_tunnel")
    then state_full_tunnel
    else if same child.route_mode (bytes "service_only")
    then state_service_only
    else state_full_access

unfoldable pub resolve_state : Enforcer → Child → Bytes
resolve_state e child = elim e.route_profile [
  | none ↦ bundle_state child
  | some r ↦ elim (profile_state (r.route_profile_for_key child.wireguard_public_key)) [
    | some state ↦ state
    | none ↦ elim (profile_state (r.route_profile_for_mac child.device_mac)) [
      | some state ↦ state
      | none ↦ bundle_state child
    ]
  ]
]

module _ (peer_ip : Bytes → Option Bytes) where
  unfoldable pub resolve_ip : Child → Bytes
  resolve_ip child =
      let looked_up : Bytes = elim (peer_ip child.wireguard_public_key) [
        | some ip ↦ if length ip == 0 then [] else ip
        | none ↦ []
      ] in
      if ltb 0 (length child.wireguard_ip) && has_prefix child.wireguard_ip (bytes "10.10.0.")
      then child.wireguard_ip
      else if ltb 0 (length child.wireguard_public_key)
      then looked_up
      else []

  module _ (iface : Bytes) (succeeds : List Args → Args → Bool) where
    unfoldable pub ensure_rules : List Args → List Args → List Args
    ensure_rules [] log = log
    ensure_rules (check ∷ checks) log = ensure_rules checks (
        if succeeds log check
        then log ++ check ∷ []
        else log ++ check ∷ insert_forward_jump check ∷ [])

    -- An error of a rule is only logged.
    abbrev pub run_rules : List Rule → List Args → List Args
    run_rules rules log = log ++ map (λ rule. rule.args) rules

    unfoldable pub sync_children : Enforcer → List Child → List Args → List Args
    sync_children e [] log = log
    sync_children e (child ∷ children) log =
        let ip = resolve_ip child in
        sync_children e children (
          if length ip == 0
          then log
          else run_rules (build_rules ip (resolve_state e child)).rules log)

    -- The log behind, and whether `nil` was returned for the error.
    unfoldable pub sync : Enforcer → List Child → List Args → List Args × Bool
    sync e children log =
        let ensured = ensure_rules (ensure_forward_jump iface) (log ++ chain_ensure_args ∷ []) in
        if e.dev_mode
        then (log, true)
        else if succeeds ensured chain_flush_args
        then (sync_children e children (ensured ++ chain_flush_args ∷ []), true)
        else (ensured ++ chain_flush_args ∷ [], false)

    unfoldable pub sync_from_bundle : Enforcer → List Args → List Args × Bool
    sync_from_bundle e log = elim e.bundle_provider [
      | none ↦ sync e [] log
      | some children ↦ sync e children log
    ]

    -- The source passes the device's MAC where the rules take an address.
    unfoldable pub pause_device : Enforcer → Bytes → List Args → List Args × Bool
    pause_device e mac log =
        let ensured = ensure_rules (ensure_forward_jump iface) (log ++ chain_ensure_args ∷ []) in
        if e.dev_mode
        then (log, true)
        else (run_rules (build_rules mac state_paused).rules ensured, true)

    unfoldable pub unpause_device : Enforcer → Bytes → List Args → List Args × Bool
    unpause_device e mac log = if e.dev_mode then (log, true) else sync_from_bundle e log
