-- ===== src/Enforcer/Transitions.antt =====
-- What one check of internal/enforcer/failsafe_enforcer.go does.
use safeswitch_router.Common.{
  ◌≡◌, true, false, not, ◌&&◌, [], ◌∷◌, arith, bytes, ◌==◌, if◌then◌else◌,
}
use safeswitch_router.Enforcer.{
  FailsafeState, Check, should_be_active, enter, exit, stay, check_and_enter_failsafe,
}

-- A check makes the fail-safe active exactly if the bundle is missing or expired beyond the grace
-- period while the cloud is not reachable. A report is made if a reporter is set and this is a
-- change; it says whether the fail-safe is entered, and on entry always gives the reason
-- "bundle_expired_cloud_unreachable". The emergency domains stay.
pub check_and_enter_failsafe-decides :
    (c : Check) (s : FailsafeState)
    → ((check_and_enter_failsafe c s).0.active ≡ should_be_active c)
      × ((check_and_enter_failsafe c s).0.emergency_domains ≡ s.emergency_domains)
      × ((check_and_enter_failsafe c s).1 ≡ (
          if not s.reporter
          then []
          else if should_be_active c && not s.active
          then record {
            entry = true;
            reason = bytes "bundle_expired_cloud_unreachable";
            expired_at = c.bundle_expires_at;
            since = if s.offline_since == 0 then c.now else s.offline_since;
          }
            ∷ []
          else if s.active && not (should_be_active c)
          then record { entry = false; reason = bytes "recovered"; expired_at = 0; since = 0 } ∷ []
          else []))
unfolding check_and_enter_failsafe enter exit stay
check_and_enter_failsafe-decides c s = ground arith
