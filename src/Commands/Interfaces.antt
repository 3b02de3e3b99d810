-- ===== src/Commands/Interfaces.antt =====
-- What the handlers of internal/commands/handlers.go need of the router's other services. `W` is the
-- state that those services change; an operation returns it with the error's text.
use safeswitch_router.Common.{Bool, true, Option, none, some, ◌++◌, Bytes}
use safeswitch_router.Policy.{Bundle}
use safeswitch_router.Commands.{Answer, error}
use safeswitch_router.Commands.Payloads.{Fallible, fine, failure}

pub record PolicySwapper (W : Type 0) : Type 0 where
  pub swap_bundle : Bundle → W → W × Option Bytes

pub record DnsReloader (W : Type 0) : Type 0 where
  pub reload : W → W × Option Bytes

pub record TunnelManager (W : Type 0) : Type 0 where
  pub add_peer : Bytes → Bytes → Bytes → W → W × Fallible Bytes
  pub remove_peer : Bytes → W → W × Option Bytes

pub record FirewallEnforcer (W : Type 0) : Type 0 where
  pub pause_device : Bytes → W → W × Option Bytes
  pub unpause_device : Bytes → W → W × Option Bytes
  pub sync_from_bundle : W → W × Option Bytes

pub record RouteProfileStore (W : Type 0) : Type 0 where
  pub set_route_profile : Bytes → Bytes → Bytes → W → W × Option Bytes

-- A `nil` service is `none`; the policy is not asked for `nil`.
pub record Services (W : Type 0) : Type 0 where
  pub policy : PolicySwapper W
  pub dns_server : Option (DnsReloader W)
  pub tunnel_mgr : Option (TunnelManager W)
  pub firewall : Option (FirewallEnforcer W)
  pub route_profiles : Option (RouteProfileStore W)

abbrev pub succeeded : Option Bytes → Fallible Bool
succeeded none = fine true
succeeded (some e) = failure e

-- `if err != nil { return nil, err }`, with a text before the error's.
unfoldable pub attempt : {A W : Type 0} → Bytes → Fallible A → W → (A → W × Answer) → W × Answer
attempt before (failure e) w rest = (w, error (before ++ e))
attempt before (fine a) w rest = rest a
