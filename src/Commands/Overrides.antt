-- ===== src/Commands/Overrides.antt =====
-- What a route profile set by internal/commands/handlers.go does to the firewall's state of a device.
use safeswitch_router.Common.{
  ℕ, ◌+◌, ◌<◌, ◌≡◌, refl, ap, ◌∙◌, true, false, Option, none, some, [], arith, Bytes, bytes, length,
  same, same_iff, ◌==◌, if◌then◌else◌, Bool-cases, ◌⊎◌, inl, inr,
}
use safeswitch_router.Common.Json.{text, Fields, field_of}
use safeswitch_router.Common.Dict.{lookup, lookup-insert_self}
use safeswitch_router.Firewall.{state_full_tunnel, state_service_only}
use safeswitch_router.Firewall.Enforcer.{
  Child, Enforcer, RouteProfileReader, bundle_state, resolve_state,
}
use safeswitch_router.Commands.Payloads.{fine, require_string, string_val}
use safeswitch_router.Commands.Interfaces.{FirewallEnforcer, attempt}
use safeswitch_router.Commands.Profiles.{
  Profiles, ProfileRow, is_valid_profile, store_profile, set_route_profile_handler,
  set_route_profile, route_profile_for_mac, route_profile_for_key, db_store, db_reader,
}

is_valid_profile-cases :
    (profile : Bytes)
    → is_valid_profile profile ≡ true
    → (profile ≡ bytes "full_tunnel")
      ⊎ ((profile ≡ bytes "split_tunnel") ⊎ (profile ≡ bytes "service_only"))
is_valid_profile-cases profile h = elim (Bool-cases (same profile (bytes "full_tunnel"))) [
  | inl e ↦ inl (ground (arith, e, same_iff profile (bytes "full_tunnel")))
  | inr e ↦ elim (Bool-cases (same profile (bytes "split_tunnel"))) [
    | inl f ↦ inr (inl (ground (arith, f, same_iff profile (bytes "split_tunnel"))))
    | inr f ↦ inr (inr (ground (arith, h, e, f, same_iff profile (bytes "service_only"))))
  ]
]

require_string-text :
    (quote : Bytes → Bytes) (payload : Fields) (key s : Bytes)
    → field_of key payload ≡ some (text s)
    → 0 < length s
    → require_string quote payload key ≡ fine s
unfolding require_string
require_string-text quote payload key s h k = ground (arith, h)

route_profile_for_mac-set_route_profile :
    (refusal mac profile source : Bytes) (table : Profiles)
    → 0 < length profile
    → route_profile_for_mac (set_route_profile true refusal mac profile source table).0 mac
      ≡ profile
unfolding route_profile_for_mac set_route_profile
route_profile_for_mac-set_route_profile refusal mac profile source table h =
    let version : ℕ = elim (lookup mac table) [
      | none ↦ 1
      | some row ↦ row.route_profile_version + 1
    ] in
    let row : ProfileRow = record {
      route_profile = profile;
      route_profile_source = source;
      route_profile_version = version;
      client_applied = false;
    } in
    ground (arith, h, lookup-insert_self mac row table)

-- The firewall's synchronisation, if there is a firewall, does not write the profiles.
abbrev pub KeepsProfiles : Option (FirewallEnforcer Profiles) → Type 0
KeepsProfiles none = Unit {0}
KeepsProfiles (some f) = (table : Profiles) → (f.sync_from_bundle table).0 ≡ table

store_profile-table :
    (fw : Option (FirewallEnforcer Profiles)) (refusal mac profile source : Bytes)
    (table : Profiles)
    → KeepsProfiles fw
    → (store_profile fw (some (db_store true refusal)) mac profile source table).0
      ≡ (set_route_profile true refusal mac profile source table).0
unfolding store_profile set_route_profile
store_profile-table none refusal mac profile source table keeps = refl
store_profile-table (some f) refusal mac profile source table keeps = keeps _

-- The table behind a command.
set_route_profile_handler-table :
    (quote : Bytes → Bytes) (fw : Option (FirewallEnforcer Profiles)) (refusal : Bytes)
    (payload : Fields) (table : Profiles) (mac profile : Bytes)
    → KeepsProfiles fw
    → field_of (bytes "profile") payload ≡ some (text profile)
    → field_of (bytes "device_mac") payload ≡ some (text mac)
    → 0 < length mac
    → 0 < length profile
    → is_valid_profile profile ≡ true
    → (source : Bytes) × ((set_route_profile_handler quote fw
          (some (db_store true refusal))
          payload
          table).0
        ≡ (set_route_profile true refusal mac profile source table).0)
unfolding set_route_profile_handler attempt
set_route_profile_handler-table quote fw refusal payload table mac profile keeps h k l l' v = (
  if length (string_val payload (bytes "source")) == 0
      then bytes "guardian"
      else string_val payload (bytes "source"),
  rw (require_string-text quote payload (bytes "profile") profile h l') (
      rw (v, require_string-text quote payload (bytes "device_mac") mac k l)
        (store_profile-table fw refusal mac profile _ table keeps)),
)

-- The state of a device whose profile is known by its MAC.
resolve_state-is_valid_profile :
    (r : RouteProfileReader) (e : Enforcer) (child : Child) (profile : Bytes)
    → e.route_profile ≡ some r
    → r.route_profile_for_key child.wireguard_public_key ≡ []
    → r.route_profile_for_mac child.device_mac ≡ profile
    → is_valid_profile profile ≡ true
    → resolve_state e child ≡ (
        if same profile (bytes "full_tunnel")
        then state_full_tunnel
        else if same profile (bytes "service_only")
        then state_service_only
        else bundle_state child)
unfolding resolve_state same
resolve_state-is_valid_profile r e child profile h k m v = elim (is_valid_profile-cases profile v) [
  | inl f ↦ ground (arith, h, k, m, f)
  | inr (inl f) ↦ ground (arith, h, k, m, f)
  | inr (inr f) ↦ ground (arith, h, k, m, f)
]

-- Behind a command that sets a valid profile for a device, in a database that takes it, with no
-- firewall or one whose synchronisation, run by the command, leaves the profiles alone, the
-- firewall's state of the device goes by that profile alone if it is full_tunnel or service_only:
-- also a paused device gets its traffic through. With split_tunnel it goes by the bundle.
pub resolve_state-set_route_profile_handler :
    (quote : Bytes → Bytes) (fw : Option (FirewallEnforcer Profiles)) (refusal : Bytes)
    (payload : Fields) (table : Profiles) (profile : Bytes) (e : Enforcer) (child : Child)
    → KeepsProfiles fw
    → field_of (bytes "profile") payload ≡ some (text profile)
    → field_of (bytes "device_mac") payload ≡ some (text child.device_mac)
    → 0 < length child.device_mac
    → is_valid_profile profile ≡ true
    → e.route_profile
      ≡ some (
          db_reader
            (set_route_profile_handler quote fw (some (db_store true refusal)) payload table).0)
    → resolve_state e child ≡ (
        if same profile (bytes "full_tunnel")
        then state_full_tunnel
        else if same profile (bytes "service_only")
        then state_service_only
        else bundle_state child)
unfolding route_profile_for_key
resolve_state-set_route_profile_handler quote fw refusal payload table profile e child keeps h k l v
      r =
    let long : 0 < length profile = elim (is_valid_profile-cases profile v) [
      | inl f ↦ rw f (omega arith)
      | inr (inl f) ↦ rw f (omega arith)
      | inr (inr f) ↦ rw f (omega arith)
    ] in
    let mac = child.device_mac in
    let (source, t) =
      set_route_profile_handler-table quote fw refusal payload table mac profile keeps h k l long
        v in
    let after = set_route_profile_handler quote fw (some (db_store true refusal)) payload table in
    resolve_state-is_valid_profile (db_reader after.0) e child profile r refl
      (ap (λ p. route_profile_for_mac p mac) t
        ∙ route_profile_for_mac-set_route_profile refusal mac profile source table long)
      v
