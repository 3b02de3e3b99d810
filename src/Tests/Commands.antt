-- ===== src/Tests/Commands.antt =====
-- internal/commands on small inputs.
use safeswitch_router.Common.{
  ℕ, ◌+◌, ◌≡◌, refl, Bool, true, false, Option, none, some, List, [], ◌∷◌, arith, Bytes, bytes,
  length, same,
}
use safeswitch_router.Common.Json.{text, Fields, no_fields, field, field_of}
use safeswitch_router.Common.Dict.{Dict, lookup, insert}
use safeswitch_router.Policy.{Bundle, ChildEffectiveState, new_runtime, active_bundle}
use safeswitch_router.Firewall.{state_full_tunnel}
use safeswitch_router.Firewall.Enforcer.{Child, Enforcer, resolve_state}
use safeswitch_router.Commands.{
  Status, done, Command, Ledger, result, Handler, is_terminal, register, enqueue, pending_commands,
  execute,
}
use safeswitch_router.Commands.Runs.{execute-execute}
use safeswitch_router.Commands.Payloads.{Fallible, fine, parse_time}
use safeswitch_router.Commands.Interfaces.{FirewallEnforcer, Services}
use safeswitch_router.Commands.Handlers.{update_policy_handler}
use safeswitch_router.Commands.Profiles.{Profiles, set_route_profile_handler, db_store, db_reader}
use safeswitch_router.Commands.Overrides.{resolve_state-set_route_profile_handler}
use safeswitch_router.Commands.Policies.{
  runtime_swapper, bundle_fields, carried, active_bundle-update_policy_handler,
}
use safeswitch_router.Commands.Pauses.{status_of, execute-pause_device}
use safeswitch_router.Commands.Registration.{register_handlers}

abbrev quote : Bytes → Bytes
quote s = s

abbrev writes : Status → Bool
writes status = true

-- Counts its runs.
abbrev counting : Handler ℕ
counting payload n = (n + 1, result none)

abbrev handlers : Dict (Handler ℕ)
handlers = (bytes "ping", counting) ∷ []

abbrev ping : Bytes → Command
ping id = record { id = id; command_type = bytes "ping"; payload = no_fields }

abbrev ledger : Ledger
ledger = enqueue (ping (bytes "b")) (enqueue (ping (bytes "a")) [])

pending_run : pending_commands ledger ≡ ping (bytes "a") ∷ ping (bytes "b") ∷ []
unfolding pending_commands enqueue insert lookup same
pending_run = refl

execute-execute_example :
    (is_terminal (bytes "a") (execute quote handlers writes (ping (bytes "a")) (ledger, 0)).0
      ≡ true)
    × (execute quote handlers writes
          (ping (bytes "a"))
          (execute quote handlers writes (ping (bytes "a")) (ledger, 0))
        ≡ execute quote handlers writes (ping (bytes "a")) (ledger, 0))
    × (lookup (bytes "b") (execute quote handlers writes (ping (bytes "a")) (ledger, 0)).0
        ≡ lookup (bytes "b") ledger)
unfolding enqueue insert lookup same
execute-execute_example =
    execute-execute quote handlers writes (ping (bytes "a")) (bytes "b") ledger 0 refl refl
      (λ status. refl) refl

-- A time is the length of its text.
abbrev parse : Bytes → Bytes → Fallible ℕ
parse layout s = fine (length s)

abbrev child : ChildEffectiveState
child = record {
  child_id = bytes "c1";
  device_mac = bytes "aa:bb";
  wireguard_public_key = bytes "k";
  wireguard_ip = bytes "10.10.0.7/32";
  mode = bytes "homework";
  lock_enabled = true;
  dns_profile_id = [];
  allowed_services = bytes "maps" ∷ [];
  blocked_categories = bytes "games" ∷ [];
}

abbrev bundle : Bundle
bundle = record {
  version = bytes "v1";
  issued_at = 1;
  expires_at = 2;
  signature = [];
  emergency_domains = bytes "112.org" ∷ [];
  children = child ∷ [];
}

abbrev marshal : Bundle → Option Bytes
marshal b = some b.version

active_bundle-update_policy_handler_example :
    active_bundle
      (update_policy_handler quote parse
        (runtime_swapper marshal true (bytes "full"))
        (bundle_fields (bytes "1") (bytes "22") bundle)
        (new_runtime none)).0
    ≡ some (carried bundle)
unfolding parse_time
active_bundle-update_policy_handler_example =
    active_bundle-update_policy_handler quote parse marshal (bytes "v1") (bytes "full") (bytes "1")
      (bytes "22") bundle (new_runtime none) (omega arith) (omega arith) (omega arith) refl refl
      ((omega arith, tt), tt) refl

abbrev profile_payload : Fields
profile_payload =
    field (bytes "profile") (text (bytes "full_tunnel"))
      (field (bytes "device_mac") (text (bytes "aa:bb")) no_fields)

abbrev paused_child : Child
paused_child = record {
  device_id = bytes "d1";
  child_id = bytes "c1";
  device_mac = bytes "aa:bb";
  wireguard_public_key = bytes "k";
  wireguard_ip = bytes "10.10.0.7";
  display_name = bytes "tablet";
  paused = true;
  route_mode = [];
}

-- A firewall whose synchronisation fails.
abbrev syncing : FirewallEnforcer Profiles
syncing = record {
  pause_device = λ mac w. (w, none);
  unpause_device = λ mac w. (w, none);
  sync_from_bundle = λ w. (w, some (bytes "no iptables"));
}

abbrev enforcer : Enforcer
enforcer = record {
  route_profile = some (
      db_reader
        (set_route_profile_handler quote (some syncing) (some (db_store true (bytes "full")))
          profile_payload []).0);
  dev_mode = false;
  bundle_provider = none;
}

resolve_state-set_route_profile_handler_example :
    resolve_state enforcer paused_child ≡ state_full_tunnel
unfolding field_of same
resolve_state-set_route_profile_handler_example =
    resolve_state-set_route_profile_handler quote (some syncing) (bytes "full") profile_payload []
      (bytes "full_tunnel") enforcer paused_child (λ table. refl) refl refl (omega arith) refl refl

-- The state is the list of the devices that were paused.
abbrev listing : FirewallEnforcer (List Bytes)
listing = record {
  pause_device = λ mac w. (mac ∷ w, none);
  unpause_device = λ mac w. (w, none);
  sync_from_bundle = λ w. (w, none);
}

abbrev services : Services (List Bytes)
services = record {
  policy = record { swap_bundle = λ b w. (w, none) };
  dns_server = none;
  tunnel_mgr = none;
  firewall = some listing;
  route_profiles = none;
}

abbrev pause : Command
pause = record {
  id = bytes "p";
  command_type = bytes "pause_device";
  payload = field (bytes "device_mac") (text (bytes "aa:bb")) no_fields;
}

abbrev exit : List Bytes → List Bytes
exit w = w

abbrev built_in : Dict (Handler (List Bytes))
built_in = elim (register_handlers quote parse (bytes "now") exit services []) [
  | none ↦ []
  | some handlers ↦ handlers
]

execute-pause_device_example :
    ((execute quote built_in writes pause (enqueue pause [], [])).1 ≡ bytes "aa:bb" ∷ [])
    × (status_of (bytes "p") (execute quote built_in writes pause (enqueue pause [], [])).0
        ≡ some done)
unfolding register_handlers register enqueue lookup insert same field_of is_terminal
execute-pause_device_example =
    execute-pause_device quote parse (bytes "now") exit services writes built_in listing (bytes "p")
      (bytes "aa:bb") pause.payload (enqueue pause []) [] refl refl (λ status. refl) refl refl refl
      (omega arith)
