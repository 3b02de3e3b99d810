-- ===== src/Commands/Registration.antt =====
-- `RegisterHandlers` of internal/commands/handlers.go.
use safeswitch_router.Common.{ℕ, Option, none, some, Bytes, bytes}
use safeswitch_router.Common.Dict.{Dict}
use safeswitch_router.Commands.{Handler, register}
use safeswitch_router.Commands.Payloads.{Fallible}
use safeswitch_router.Commands.Interfaces.{Services}
use safeswitch_router.Commands.Profiles.{set_route_profile_handler}
use safeswitch_router.Commands.Handlers.{
  ping_handler, pause_device_handler, unpause_device_handler, update_policy_handler,
  reload_dns_profile_handler, add_peer_handler, remove_peer_handler, restart_handler,
}

module _ {W : Type 0} where
  abbrev pub also : Bytes → Handler W → Option (Dict (Handler W)) → Option (Dict (Handler W))
  also command_type h none = none
  also command_type h (some handlers) = register command_type h handlers

  unfoldable pub register_handlers :
      (Bytes → Bytes)
      → (Bytes → Bytes → Fallible ℕ)
      → Bytes
      → (W → W)
      → Services W
      → Dict (Handler W)
      → Option (Dict (Handler W))
  register_handlers quote parse now exit s handlers =
      let e1 = also (bytes "ping") (ping_handler now) (some handlers) in
      let e2 = also (bytes "pause_device") (pause_device_handler quote s.firewall) e1 in
      let e3 = also (bytes "unpause_device") (unpause_device_handler quote s.firewall) e2 in
      let e4 = also (bytes "update_policy") (update_policy_handler quote parse s.policy) e3 in
      let e5 =
        also (bytes "set_route_profile")
          (set_route_profile_handler quote s.firewall s.route_profiles) e4 in
      let e6 =
        also (bytes "reload_dns_profile") (reload_dns_profile_handler quote s.dns_server) e5 in
      let e7 = also (bytes "add_peer") (add_peer_handler quote s.tunnel_mgr) e6 in
      let e8 = also (bytes "remove_peer") (remove_peer_handler quote s.tunnel_mgr) e7 in
      also (bytes "restart") (restart_handler exit) e8
