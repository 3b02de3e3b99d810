-- ===== src/Enforcer.antt =====
-- internal/enforcer/failsafe_enforcer.go: the fail-safe of a node without a valid policy bundle and
-- without the cloud. The package's one global state is passed on explicitly. A time is a number, 0
-- for Go's zero time; `time.Now()` is an argument. A report, which the source hands to a goroutine
-- of its own, is returned, in the order of the starts.
pub mod Transitions
pub mod Runs
pub mod Domains
use safeswitch_router.Common.{
  ℕ, ◌+◌, ◌-◌, Bool, true, false, not, ◌&&◌, ◌||◌, List, [], ◌∷◌, ◌++◌, Bytes, bytes, length, take,
  get_or, ltb, ◌==◌, same, if◌then◌else◌,
}
use safeswitch_router.Common.Text.{has_suffix}

pub record FailsafeState : Type 0 where
  pub active : Bool
  pub triggered_at : ℕ
  pub trigger_reason : Bytes
  pub bundle_expired_at : ℕ
  pub offline_since : ℕ
  pub emergency_domains : List Bytes
  -- Is a reporter set?
  pub reporter : Bool

unfoldable pub global_failsafe : FailsafeState
global_failsafe = record {
  active = false;
  triggered_at = 0;
  trigger_reason = [];
  bundle_expired_at = 0;
  offline_since = 0;
  emergency_domains =
      bytes "google.com"
      ∷ bytes "apple.com"
      ∷ bytes "microsoft.com"
      ∷ bytes "icloud.com"
      ∷ bytes "gmail.com"
      ∷ bytes "outlook.com"
      ∷ [];
  reporter = false;
}

-- The arguments of one call of the reporter.
pub record Report : Type 0 where
  pub entry : Bool
  pub reason : Bytes
  pub expired_at : ℕ
  pub since : ℕ

unfoldable pub set_reporter : FailsafeState → FailsafeState
set_reporter s = record {
  active = s.active;
  triggered_at = s.triggered_at;
  trigger_reason = s.trigger_reason;
  bundle_expired_at = s.bundle_expired_at;
  offline_since = s.offline_since;
  emergency_domains = s.emergency_domains;
  reporter = true;
}

unfoldable pub get_failsafe_state : FailsafeState → Bool × List Bytes
get_failsafe_state s = (s.active, s.emergency_domains)

unfoldable pub is_active : FailsafeState → Bool
is_active s = s.active

unfoldable pub is_deny_all : FailsafeState → Bool
is_deny_all s = s.active && s.bundle_expired_at == 0

-- `TriggerReason()`
unfoldable pub last_reason : FailsafeState → Bytes
last_reason s = s.trigger_reason

unfoldable pub update_emergency_domains : List Bytes → FailsafeState → FailsafeState
update_emergency_domains domains s =
    if ltb 0 (length domains)
    then record {
      active = s.active;
      triggered_at = s.triggered_at;
      trigger_reason = s.trigger_reason;
      bundle_expired_at = s.bundle_expired_at;
      offline_since = s.offline_since;
      emergency_domains = domains;
      reporter = s.reporter;
    }
    else s

-- The arguments of one check, with the time of the call.
pub record Check : Type 0 where
  pub now : ℕ
  pub bundle_expires_at : ℕ
  pub cloud_reachable : Bool
  pub grace_period : ℕ

abbrev pub no_bundle_ever : Check → Bool
no_bundle_ever c = c.bundle_expires_at == 0

abbrev pub should_be_active : Check → Bool
should_be_active c =
    (no_bundle_ever c || ltb (c.bundle_expires_at + c.grace_period) c.now) && not c.cloud_reachable

unfoldable pub enter : Check → FailsafeState → FailsafeState
enter c s = record {
  active = true;
  triggered_at = c.now;
  trigger_reason =
      if no_bundle_ever c
      then bytes "no_bundle_cloud_unreachable"
      else bytes "bundle_expired_cloud_unreachable";
  bundle_expired_at = c.bundle_expires_at;
  offline_since = if s.offline_since == 0 then c.now else s.offline_since;
  emergency_domains = s.emergency_domains;
  reporter = s.reporter;
}

unfoldable pub exit : FailsafeState → FailsafeState
exit s = record {
  active = false;
  triggered_at = s.triggered_at;
  trigger_reason = s.trigger_reason;
  bundle_expired_at = s.bundle_expired_at;
  offline_since = 0;
  emergency_domains = s.emergency_domains;
  reporter = s.reporter;
}

-- Neither entered nor left: only the start of the offline time may change.
unfoldable pub stay : Check → FailsafeState → FailsafeState
stay c s = record {
  active = s.active;
  triggered_at = s.triggered_at;
  trigger_reason = s.trigger_reason;
  bundle_expired_at = s.bundle_expired_at;
  offline_since =
      if not c.cloud_reachable && s.offline_since == 0
      then c.now
      else if c.cloud_reachable
      then 0
      else s.offline_since;
  emergency_domains = s.emergency_domains;
  reporter = s.reporter;
}

unfoldable pub check_and_enter_failsafe : Check → FailsafeState → FailsafeState × List Report
check_and_enter_failsafe c s =
    let entered : Report = record {
      entry = true;
      reason = bytes "bundle_expired_cloud_unreachable";
      expired_at = c.bundle_expires_at;
      since = if s.offline_since == 0 then c.now else s.offline_since;
    } in
    let left : Report = record {
      entry = false;
      reason = bytes "recovered";
      expired_at = 0;
      since = 0;
    } in
    if should_be_active c && not s.active
    then (enter c s, if s.reporter then entered ∷ [] else [])
    else if not (should_be_active c) && s.active
    then (exit s, if s.reporter then left ∷ [] else [])
    else (stay c s, [])

-- One trailing dot is cut off.
unfoldable pub trim_dot : Bytes → Bytes
trim_dot domain =
    if ltb 0 (length domain) && get_or domain (length domain - 1) 0 == b'.'
    then take (length domain - 1) domain
    else domain

unfoldable pub allowed_by : Bytes → List Bytes → Bool
allowed_by domain [] = false
allowed_by domain (allowed ∷ rest) =
    if same domain allowed || has_suffix domain (bytes "." ++ allowed)
    then true
    else allowed_by domain rest

unfoldable pub is_allowed_in_failsafe : Bytes → List Bytes → Bool
is_allowed_in_failsafe domain emergency_domains = allowed_by (trim_dot domain) emergency_domains
