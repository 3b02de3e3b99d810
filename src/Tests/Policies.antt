-- ===== src/Tests/Policies.antt =====
-- internal/policy/runtime.go and internal/enforcer/failsafe_enforcer.go on small inputs.
use safeswitch_router.Common.{
  ◌<◌, ◌≡◌, refl, true, false, ◌&&◌, Option, some, [], ◌∷◌, arith, Bytes, bytes, length, same,
}
use safeswitch_router.Common.Text.{trim_suffix, has_suffix, join}
use safeswitch_router.Dns.Blocklist.{new_blocklist}
use safeswitch_router.Dns.Resolver.Answers.{outcome, event_for}
use safeswitch_router.Policy.{ChildEffectiveState, Bundle, Runtime, clean_ip, reader}
use safeswitch_router.Policy.Queries.{Serves, is_stopped_at, resolve-is_stopped_at}
use safeswitch_router.Enforcer.{
  FailsafeState, Check, check_and_enter_failsafe, is_deny_all, global_failsafe, set_reporter, enter,
}
use safeswitch_router.Enforcer.Runs.{
  start, checked, reporting, is_deny_all-Reachable, run, alternates,
  check_and_enter_failsafe-alternates,
}
use safeswitch_router.Tests.Wire.{query, labels, labels-IsLabel, question, parsed, parse_query_run}

abbrev unicode : Bytes → Bytes
unicode s = s

abbrev exchange : Bytes → Bytes → Option Bytes
exchange upstream q = some (1 ∷ [])

abbrev ip : Bytes
ip = bytes "10.10.0.7"

-- A locked child, its address written with "/32", stands behind another child.
abbrev child : ChildEffectiveState
child = record {
  child_id = bytes "c1";
  device_mac = bytes "aa:bb";
  wireguard_public_key = bytes "k";
  wireguard_ip = bytes "10.10.0.7/32";
  mode = bytes "homework";
  lock_enabled = true;
  dns_profile_id = [];
  allowed_services = [];
  blocked_categories = bytes "games" ∷ [];
}

abbrev bundle : Bundle
bundle = record {
  version = bytes "v1";
  issued_at = 100;
  expires_at = 200;
  signature = bytes "s";
  emergency_domains = [];
  children = record child { wireguard_ip = bytes "10.10.0.8"; lock_enabled = false } ∷ child ∷ [];
}

abbrev runtime : Runtime
runtime = record { row = some (1 ∷ []); active = some bundle; on_swap = true }

resolve-is_stopped_at_example :
    Serves exchange 5 query question labels
      (event_for unicode exchange 5 new_blocklist (some (reader runtime)) query ip question)
      (is_stopped_at ip (bundle.children))
      (outcome unicode exchange 5 new_blocklist (some (reader runtime)) query ip)
unfolding clean_ip trim_suffix has_suffix same join
resolve-is_stopped_at_example =
    resolve-is_stopped_at unicode exchange 5 new_blocklist runtime query ip parsed question []
      labels (omega arith) parse_query_run refl labels-IsLabel (omega arith) refl (omega arith)
      (omega arith)

-- Never a bundle, and no cloud at the time 1000.
abbrev lost : Check
lost = record { now = 1000; bundle_expires_at = 0; cloud_reachable = false; grace_period = 60 }

abbrev found : Check
found = record { now = 1060; bundle_expires_at = 5000; cloud_reachable = true; grace_period = 60 }

abbrev watched : FailsafeState
watched = set_reporter global_failsafe

-- The reason reported on entry is not the one that is kept.
reason_run :
    ((check_and_enter_failsafe lost watched).0.trigger_reason ≡ bytes "no_bundle_cloud_unreachable")
    × (length (check_and_enter_failsafe lost watched).1 ≡ 1)
unfolding check_and_enter_failsafe set_reporter global_failsafe enter
reason_run = (refl, refl)

abbrev denying : FailsafeState
denying = (check_and_enter_failsafe lost watched).0

is_deny_all-Reachable_example :
    (is_deny_all denying
      ≡ (denying.active && same denying.trigger_reason (bytes "no_bundle_cloud_unreachable")))
    × (denying.active ≡ true → 0 < denying.offline_since)
    × (0 < length denying.emergency_domains)
is_deny_all-Reachable_example =
    is_deny_all-Reachable denying
      (checked lost watched (omega arith) (reporting global_failsafe start))

check_and_enter_failsafe-alternates_example :
    alternates watched.active
      (run (lost ∷ found ∷ []) watched).1
      (run (lost ∷ found ∷ []) watched).0.active
    ≡ true
unfolding set_reporter
check_and_enter_failsafe-alternates_example =
    check_and_enter_failsafe-alternates (lost ∷ found ∷ []) watched refl
