-- ===== src/Controlsync/Bundles.antt =====
-- internal/controlsync/bundlesync.go and enforcementsync.go: the policy bundle fetched from the cloud,
-- on a clock and when enforcement rows arrive, and the bundle of commandpoll.go that a node starts
-- with. The replies to the requests (client.go), `encoding/json` and whether SQLite takes a row are
-- parameters. A time is a number of nanoseconds, 0 for Go's zero time.
pub mod Fetches
pub mod Enforcements
use safeswitch_router.Common.{
  ℕ, zero, suc, ◌+◌, ◌-◌, ◌*◌, Bool, true, false, not, ◌&&◌, ◌||◌, Option, none, some, List, [],
  ◌∷◌, Bytes, bytes, length, ltb, leb, same, ◌==◌, if◌then◌else◌,
}
use safeswitch_router.Common.Dict.{Dict, insert, has}
use safeswitch_router.Policy.{
  Bundle, Runtime, Outcome, done, failed, active_bundle, swap_bundle, ChildEffectiveState,
}
use safeswitch_router.Controlsync.Client.{Reply}
use safeswitch_router.Controlsync.Tables.{delete_where}

abbrev pub bundle_retry_count : ℕ
bundle_retry_count = 3

abbrev pub is_good : Option Reply → Bool
is_good none = false
is_good (some reply) = ltb reply.status 400

-- The reply that the retries end with: the first good one, or the last.
unfoldable pub get_with_retries : (ℕ → Option Reply) → ℕ → ℕ → Option Reply → Option Reply
get_with_retries get zero i last = last
get_with_retries get (suc n) i last =
    let later = get_with_retries get n (suc i) (get i) in if is_good (get i) then get i else later

-- Is it the bundle at hand, by its version, its number of children and its end?
abbrev pub is_current : Option Bundle → Bundle → Bool
is_current none b = false
is_current (some current) b =
    same current.version b.version
    && length current.children == length b.children
    && current.expires_at == b.expires_at

-- The policy behind, whether the bundle was swapped in, and whether the tunnel was told to sync.
pub record Fetched : Type 0 where
  pub runtime : Runtime
  pub swapped : Bool
  pub synced : Bool

abbrev is_swapped : Outcome → Bool
is_swapped done = true
is_swapped failed = false

module _ (marshal : Bundle → Option Bytes) (node_type : Bytes) (has_tunnel : Bool) where
  -- What becomes of a bundle that was read.
  unfoldable pub take_bundle : Bool → ℕ → Bundle → Runtime → Fetched
  take_bundle writes now b r =
      let kept : Fetched = record { runtime = r; swapped = false; synced = false } in
      let o = swap_bundle marshal writes (some b) r in
      if length b.version == 0
      then kept
      else if not (b.expires_at == 0) && ltb b.expires_at now
      then kept
      else if is_current (active_bundle r) b
      then kept
      else if is_swapped o.1
      then record {
        runtime = o.0;
        swapped = true;
        synced = not (same node_type (bytes "vps_relay")) && has_tunnel;
      }
      else record { runtime = o.0; swapped = false; synced = false }

  -- What becomes of the reply, `none` for an error.
  unfoldable pub take_reply : (Bytes → Option Bundle) → Bool → ℕ → Option Reply → Runtime → Fetched
  take_reply decode writes now none r = record { runtime = r; swapped = false; synced = false }
  take_reply decode writes now (some reply) r =
      let kept : Fetched = record { runtime = r; swapped = false; synced = false } in
      if leb 400 reply.status
      then kept
      else elim (decode reply.body) [ none ↦ kept | some b ↦ take_bundle writes now b r ]

  unfoldable pub fetch_bundle :
      (Bytes → Option Bundle) → (ℕ → Option Reply) → Bool → ℕ → Runtime → Fetched
  fetch_bundle decode get writes now r =
      take_reply decode writes now (get_with_retries get bundle_retry_count 0 none) r

-- `bootstrapBundle.toBundle()` with the times that `seedBootstrapBundle` gives it.
unfoldable pub bootstrap_bundle : ℕ → Bundle
bootstrap_bundle now = record {
  version = bytes "bootstrap-local-v1";
  issued_at = now;
  expires_at = now + 86_400_000_000_000;
  signature = bytes "bootstrap-local";
  emergency_domains = [];
  children = [];
}

unfoldable pub seed_bootstrap_bundle : (Bundle → Option Bytes) → Bool → ℕ → Runtime → Runtime
seed_bootstrap_bundle marshal writes now r = elim (active_bundle r) [
  | some b ↦ r
  | none ↦ (swap_bundle marshal writes (some (bootstrap_bundle now)) r).0
]

-- A row of the reply, as far as the node reads it.
pub record SyncRow : Type 0 where
  pub id : Bytes
  pub dedupe_key : Bytes

abbrev pub row_key : SyncRow → Bytes
row_key row = if length row.dedupe_key == 0 then row.id else row.dedupe_key

-- The keys seen lately with their times, and the time of the last bundle.
pub record EnforcementState : Type 0 where
  pub dedupe : Dict ℕ
  pub last_bundle_apply : Option ℕ

abbrev pub dedupe_window : ℕ
dedupe_window = 30_000_000_000

abbrev pub bundle_cooldown : ℕ
bundle_cooldown = 2_000_000_000

unfoldable pub forget_old : ℕ → Dict ℕ → Dict ℕ
forget_old now dedupe = delete_where (λ t. ltb dedupe_window (now - t)) dedupe

-- The keys behind, and the rows that are new.
unfoldable pub filter_rows : ℕ → List SyncRow → Dict ℕ → Dict ℕ × List SyncRow
filter_rows now [] dedupe = (dedupe, [])
filter_rows now (row ∷ rows) dedupe =
    let skipped = filter_rows now rows dedupe in
    let taken = filter_rows now rows (insert (row_key row) now dedupe) in
    if has (row_key row) dedupe then skipped else (taken.0, row ∷ taken.1)

abbrev pub cools : ℕ → Option ℕ → Bool
cools now none = false
cools now (some t) = ltb (now - t) bundle_cooldown

-- The state behind, and whether the bundle is fetched; `applied_at` is the time after the fetch.
unfoldable pub poll_and_enforce :
    ℕ → ℕ → ℕ → List SyncRow → EnforcementState → EnforcementState × Bool
poll_and_enforce now checked_at applied_at rows s =
    let filtered = filter_rows now rows (forget_old now s.dedupe) in
    let seen = record s { dedupe = filtered.0 } in
    if length rows == 0
    then (s, false)
    else if length filtered.1 == 0
    then (seen, false)
    else if cools checked_at s.last_bundle_apply
    then (seen, false)
    else (record seen { last_bundle_apply = some applied_at }, true)
