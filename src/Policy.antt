-- ===== src/Policy.antt =====
-- internal/policy/runtime.go and pkg/contract/policybundle/types.go: the active policy bundle and
-- what the DNS path asks of it. Times are numbers that the runtime only passes on. The locks order
-- the calls. `encoding/json` is the pair of parameters `marshal` and `unmarshal` (`none` is the
-- error), and the row of the database with id 1 is part of the state.
pub mod Children
pub mod Swaps
pub mod Queries
use safeswitch_router.Common.{
  ℕ, Bool, true, false, ◌||◌, Option, none, some, List, [], ◌∷◌, Bytes, bytes, length, same, ◌==◌,
  if◌then◌else◌,
}
use safeswitch_router.Common.Dict.{Dict, insert}
use safeswitch_router.Common.Text.{trim_suffix}
use safeswitch_router.Dns.Resolver.{PolicyReader}

pub record ChildEffectiveState : Type 0 where
  pub child_id : Bytes
  pub device_mac : Bytes
  pub wireguard_public_key : Bytes
  pub wireguard_ip : Bytes
  pub mode : Bytes
  pub lock_enabled : Bool
  pub dns_profile_id : Bytes
  pub allowed_services : List Bytes
  pub blocked_categories : List Bytes

pub record Bundle : Type 0 where
  pub version : Bytes
  pub issued_at : ℕ
  pub expires_at : ℕ
  pub signature : Bytes
  pub emergency_domains : List Bytes
  pub children : List ChildEffectiveState

-- `row` is `payload_json` of the one row of `active_policy_bundle`; `on_swap` says whether a
-- callback is set.
pub record Runtime : Type 0 where
  pub row : Option Bytes
  pub active : Option Bundle
  pub on_swap : Bool

-- A runtime over a database with this row.
unfoldable pub new_runtime : Option Bytes → Runtime
new_runtime row = record { row = row; active = none; on_swap = false }

unfoldable pub set_on_swap : Runtime → Runtime
set_on_swap r = record { row = r.row; active = r.active; on_swap = true }

-- `none` is the error "no active bundle".
unfoldable pub active_bundle : Runtime → Option Bundle
active_bundle r = r.active

pub data Outcome : Type 0 where
  done failed : Outcome

module _ (marshal : Bundle → Option Bytes) where
  -- The new state, the error, and whether the callback was called. `None` is Go's `nil` bundle;
  -- `writes` says whether the database takes the row.
  unfoldable pub swap_bundle : Bool → Option Bundle → Runtime → Runtime × Outcome × Bool
  swap_bundle writes none r = (r, failed, false)
  swap_bundle writes (some b) r = elim (marshal b) [
    | none ↦ (r, failed, false)
    | some raw ↦
        if writes
        then (record { row = some raw; active = some b; on_swap = r.on_swap }, done, r.on_swap)
        else (r, failed, false)
  ]

module _ (unmarshal : Bytes → Option Bundle) where
  -- `reads` says whether the query of the row ends without an error of its own.
  unfoldable pub load_active : Bool → Runtime → Runtime × Outcome
  load_active reads r =
      if reads
      then (elim r.row [
        | none ↦ (r, done)
        | some raw ↦ elim (unmarshal raw) [
          | none ↦ (r, failed)
          | some b ↦ (record { row = r.row; active = some b; on_swap = r.on_swap }, done)
        ]
      ])
      else (r, failed)

-- The children of the active bundle; without a bundle the loops of the source are not reached.
abbrev pub children_of : Option Bundle → List ChildEffectiveState
children_of none = []
children_of (some b) = b.children

unfoldable pub profile_for_mac : Bytes → List ChildEffectiveState → Bytes
profile_for_mac mac [] = bytes "default"
profile_for_mac mac (c ∷ cs) =
    if same c.device_mac mac
    then (if length c.dns_profile_id == 0 then bytes "default" else c.dns_profile_id)
    else profile_for_mac mac cs

unfoldable pub dns_profile_for_mac : Runtime → Bytes → Bytes
dns_profile_for_mac r mac = profile_for_mac mac (children_of r.active)

-- `strings.TrimSuffix(ip, "/32")`
unfoldable pub clean_ip : Bytes → Bytes
clean_ip ip = trim_suffix ip (bytes "/32")

unfoldable pub categories_for : Bytes → List ChildEffectiveState → List Bytes
categories_for clean [] = []
categories_for clean (c ∷ cs) =
    if same (clean_ip c.wireguard_ip) clean then c.blocked_categories else categories_for clean cs

unfoldable pub blocked_categories_for_ip : Runtime → Bytes → List Bytes
blocked_categories_for_ip r ip = categories_for (clean_ip ip) (children_of r.active)

unfoldable pub paused_for : Bytes → List ChildEffectiveState → Bool
paused_for clean [] = false
paused_for clean (c ∷ cs) =
    if same (clean_ip c.wireguard_ip) clean
    then c.lock_enabled || same c.mode (bytes "paused")
    else paused_for clean cs

unfoldable pub internet_paused_for_ip : Runtime → Bytes → Bool
internet_paused_for_ip r ip = paused_for (clean_ip ip) (children_of r.active)

unfoldable pub macs_of : List ChildEffectiveState → Dict Bool → Dict Bool
macs_of [] result = result
macs_of (c ∷ cs) result =
    macs_of cs (if length c.device_mac == 0 then result else insert c.device_mac true result)

unfoldable pub enrolled_macs : Runtime → Dict Bool
enrolled_macs r = macs_of (children_of r.active) []

-- What the resolver takes of the runtime.
abbrev pub reader : Runtime → PolicyReader
reader r = record {
  internet_paused_for_ip = internet_paused_for_ip r;
  blocked_categories_for_ip = blocked_categories_for_ip r;
}
