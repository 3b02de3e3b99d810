-- ===== src/Commands/Profiles.antt =====
-- `set_route_profile` of internal/commands/handlers.go, and the store of the profiles: the table
-- `device_route_profiles` is a dictionary by MAC. The schema has no column `public_key`, so that the
-- query by key fails and its error is ignored.
use safeswitch_router.Common.{
  ℕ, ◌+◌, Bool, true, false, not, ◌||◌, Option, none, some, [], ◌++◌, Bytes, bytes, length, same,
  ◌==◌, if◌then◌else◌,
}
use safeswitch_router.Common.Json.{flag, text, no_fields, field}
use safeswitch_router.Common.Dict.{Dict, lookup, insert}
use safeswitch_router.Firewall.Enforcer.{RouteProfileReader}
use safeswitch_router.Commands.{result, error, Handler}
use safeswitch_router.Commands.Payloads.{require_string, string_val}
use safeswitch_router.Commands.Interfaces.{FirewallEnforcer, RouteProfileStore, attempt}

abbrev pub is_valid_profile : Bytes → Bool
is_valid_profile profile =
    same profile (bytes "full_tunnel")
    || same profile (bytes "split_tunnel")
    || same profile (bytes "service_only")

module _ {W : Type 0} where
  -- Whether the firewall was synchronised; an error of the store or of the firewall is only logged.
  unfoldable pub store_profile :
      Option (FirewallEnforcer W)
      → Option (RouteProfileStore W)
      → Bytes
      → Bytes
      → Bytes
      → W
      → W × Bool
  store_profile fw rps mac profile source w = elim rps [
    | none ↦ (w, false)
    | some store ↦
        let stored = store.set_route_profile mac profile source w in
        elim stored.1 [
          | some e ↦ (stored.0, false)
          | none ↦ elim fw [
            | none ↦ (stored.0, false)
            | some f ↦
                let synced = f.sync_from_bundle stored.0 in
                (synced.0, elim synced.1 [ none ↦ true | some e ↦ false ])
          ]
        ]
  ]

  unfoldable pub set_route_profile_handler :
      (Bytes → Bytes) → Option (FirewallEnforcer W) → Option (RouteProfileStore W) → Handler W
  set_route_profile_handler quote fw rps payload w =
      attempt [] (require_string quote payload (bytes "profile")) w (λ profile.
        if not (is_valid_profile profile)
        then (
          w,
          error (
              bytes "unknown profile "
              ++ (quote profile ++ bytes ": must be full_tunnel, split_tunnel, or service_only")),
        )
        else attempt [] (require_string quote payload (bytes "device_mac")) w (λ mac.
          let given = string_val payload (bytes "source") in
          let source = if length given == 0 then bytes "guardian" else given in
          let ran = store_profile fw rps mac profile source w in
          (
            ran.0,
            result (
                some (
                  field (bytes "mac") (text mac) (
                    field (bytes "profile") (text profile) (
                      field (bytes "source") (text source) (
                        field (bytes "enforced") (flag ran.1)
                          (field (bytes "client_synced") (flag false) no_fields)))))),
          )))

pub record ProfileRow : Type 0 where
  pub route_profile : Bytes
  pub route_profile_source : Bytes
  pub route_profile_version : ℕ
  pub client_applied : Bool

abbrev pub Profiles : Type 0
Profiles = Dict ProfileRow

-- A new row has the version 1 of the schema. `writes` says whether the database takes it, `refusal` is
-- the text of its error.
unfoldable pub set_route_profile :
    Bool → Bytes → Bytes → Bytes → Bytes → Profiles → Profiles × Option Bytes
set_route_profile writes refusal mac profile source table =
    let version : ℕ = elim (lookup mac table) [
      | none ↦ 1
      | some row ↦ row.route_profile_version + 1
    ] in
    if writes
    then (
      insert mac
          (record {
            route_profile = profile;
            route_profile_source = source;
            route_profile_version = version;
            client_applied = false;
          })
          table,
      none,
    )
    else (table, some refusal)

unfoldable pub route_profile_for_key : Profiles → Bytes → Bytes
route_profile_for_key table public_key = []

unfoldable pub route_profile_for_mac : Profiles → Bytes → Bytes
route_profile_for_mac table mac =
    let profile : Bytes = elim (lookup mac table) [ none ↦ [] | some row ↦ row.route_profile ] in
    if length profile == 0 then bytes "split_tunnel" else profile

abbrev pub db_store : Bool → Bytes → RouteProfileStore Profiles
db_store writes refusal = record { set_route_profile = set_route_profile writes refusal }

-- What the firewall takes of the table.
abbrev pub db_reader : Profiles → RouteProfileReader
db_reader table = record {
  route_profile_for_mac = route_profile_for_mac table;
  route_profile_for_key = route_profile_for_key table;
}
