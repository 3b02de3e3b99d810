-- ===== src/Enforcer/Runs.antt =====
-- Runs of the fail-safe of internal/enforcer/failsafe_enforcer.go over many calls.
use safeswitch_router.Common.{
  ◌<◌, ◌≡◌, Bool, true, not, ◌&&◌, List, [], ◌∷◌, ◌++◌, arith, Bytes, bytes, ◌==◌, same,
  if◌then◌else◌, length,
}
use safeswitch_router.Enforcer.{
  FailsafeState, Report, Check, enter, exit, stay, check_and_enter_failsafe, is_deny_all,
  global_failsafe, set_reporter, update_emergency_domains,
}

-- The states that calls of the package lead to, checks at times after Go's zero time.
pub data Reachable : FailsafeState → Type 0 where
  start : Reachable global_failsafe
  checked :
      (c : Check) (s : FailsafeState)
      → 0 < c.now
      → Reachable s
      → Reachable (check_and_enter_failsafe c s).0
  updated :
      (domains : List Bytes) (s : FailsafeState)
      → Reachable s
      → Reachable (update_emergency_domains domains s)
  reporting : (s : FailsafeState) → Reachable s → Reachable (set_reporter s)

-- In the fail-safe it is known since when the cloud is away, and the reason says whether there was
-- ever a bundle. There are emergency domains.
abbrev pub IsConsistent : FailsafeState → Type 0
IsConsistent s =
    (s.active ≡ true → 0 < s.offline_since)
    × (s.active ≡ true
        → s.trigger_reason ≡ (
            if s.bundle_expired_at == 0
            then bytes "no_bundle_cloud_unreachable"
            else bytes "bundle_expired_cloud_unreachable"))
    × (0 < length s.emergency_domains)

check_and_enter_failsafe-IsConsistent :
    (c : Check) (s : FailsafeState)
    → 0 < c.now
    → IsConsistent s
    → IsConsistent (check_and_enter_failsafe c s).0
unfolding check_and_enter_failsafe enter exit stay
check_and_enter_failsafe-IsConsistent c s h v =
    (ground (arith, v.0), ground (arith, v.1), ground (arith, v.2))

Reachable-IsConsistent : (s : FailsafeState) → Reachable s → IsConsistent s
unfolding global_failsafe update_emergency_domains set_reporter
Reachable-IsConsistent _ start =
    (λ h. absurd (ground (arith, h)), λ h. absurd (ground (arith, h)), omega arith)
Reachable-IsConsistent _ (checked c s h r) =
    check_and_enter_failsafe-IsConsistent c s h (Reachable-IsConsistent s r)
Reachable-IsConsistent _ (updated domains s r) =
    let v = Reachable-IsConsistent s r in
    (ground (arith, v.0), ground (arith, v.1), ground (arith, v.2))
Reachable-IsConsistent _ (reporting s r) = Reachable-IsConsistent s r

-- In every state that calls lead to, all traffic is denied exactly if the fail-safe is active for
-- the reason that there never was a bundle; while it is active it is known since when the cloud is
-- away, and there are emergency domains.
pub is_deny_all-Reachable :
    (s : FailsafeState)
    → Reachable s
    → (is_deny_all s ≡ (s.active && same s.trigger_reason (bytes "no_bundle_cloud_unreachable")))
      × (s.active ≡ true → 0 < s.offline_since)
      × (0 < length s.emergency_domains)
is_deny_all-Reachable s r =
    let v = Reachable-IsConsistent s r in (unfold is_deny_all same in ground (arith, v.1), v.0, v.2)

-- A sequence of checks, with all reports.
abbrev pub run : List Check → FailsafeState → FailsafeState × List Report
run [] s = (s, [])
run (c ∷ cs) s = (
  (run cs (check_and_enter_failsafe c s).0).0,
  (check_and_enter_failsafe c s).1 ++ (run cs (check_and_enter_failsafe c s).0).1,
)

-- Entries and exits in turn, from a fail-safe that is active or not, to one that is.
abbrev pub alternates : Bool → List Report → Bool → Bool
alternates active [] at_end = if active then at_end else not at_end
alternates active (r ∷ rs) at_end =
    if active
    then not r.entry && alternates r.entry rs at_end
    else r.entry && alternates r.entry rs at_end

check_and_enter_failsafe-reporter :
    (c : Check) (s : FailsafeState) → (check_and_enter_failsafe c s).0.reporter ≡ s.reporter
unfolding check_and_enter_failsafe enter exit stay
check_and_enter_failsafe-reporter c s = ground arith

alternates-round :
    (c : Check) (s : FailsafeState) (rs : List Report) (at_end : Bool)
    → s.reporter ≡ true
    → alternates (check_and_enter_failsafe c s).0.active rs at_end ≡ true
    → alternates s.active ((check_and_enter_failsafe c s).1 ++ rs) at_end ≡ true
unfolding check_and_enter_failsafe enter exit stay
alternates-round c s rs at_end h k = ground (arith, h, k)

-- Once a reporter is set, the reports of any sequence of checks are entries and exits in turn that
-- lead from the fail-safe being active or not before to its being active or not behind.
pub check_and_enter_failsafe-alternates :
    (cs : List Check) (s : FailsafeState)
    → s.reporter ≡ true
    → alternates s.active (run cs s).1 (run cs s).0.active ≡ true
check_and_enter_failsafe-alternates [] s h = ground arith
check_and_enter_failsafe-alternates (c ∷ cs) s h =
    let s' = (check_and_enter_failsafe c s).0 in
    alternates-round c s (run cs s').1 (run cs s').0.active h (
      check_and_enter_failsafe-alternates cs s'
        (ground (arith, h, check_and_enter_failsafe-reporter c s)))
