-- ===== src/Controlsync/Blocklists.antt =====
-- internal/controlsync/blocklistsync.go: the feeds that are mirrored into `dns_blocklist`. Go's
-- `strings.TrimSpace`, `sort.Strings`, `encoding/json`, the hexadecimal SHA-256 and Unicode's
-- lower-casing are parameters, and so is the reply of the cloud (client.go). The column `added_at` is
-- left out.
pub mod Syncs
pub mod Repeats
pub mod Served
use safeswitch_router.Common.{
  ℕ, Bool, true, false, not, ◌&&◌, ◌||◌, Option, none, some, List, [], ◌∷◌, ◌++◌, Bytes, bytes,
  length, leb, same, ◌==◌, if◌then◌else◌,
}
use safeswitch_router.Common.Dict.{Dict, lookup, insert}
use safeswitch_router.Common.Text.{to_lower, trim_suffix}
use safeswitch_router.Controlsync.Client.{Reply}
use safeswitch_router.Controlsync.Tables.{Statements, insert_or_ignore, delete_where}

pub record ThreatFeedRow : Type 0 where
  pub domain : Bytes
  pub category : Bytes

-- A row of `dns_blocklist`, whose key is the domain.
pub record BlockedRow : Type 0 where
  pub category : Bytes
  pub source : Bytes

pub record Db : Type 0 where
  pub tunnel_config : Dict Bytes
  pub dns_blocklist : Dict BlockedRow

abbrev pub source_threat_feeds : Bytes
source_threat_feeds = bytes "threat_feeds"

abbrev pub source_category_map : Bytes
source_category_map = bytes "domain_category_map"

abbrev pub hash_key : Bytes → Bytes
hash_key source = bytes "blocklist_" ++ (source ++ bytes "_hash")

abbrev pub config_value : Bytes → Dict Bytes → Bytes
config_value key config = elim (lookup key config) [ none ↦ [] | some v ↦ v ]

-- The bytes that are hashed: each text and a newline.
abbrev pub hashed_lines : List Bytes → Bytes
hashed_lines [] = []
hashed_lines (p ∷ ps) = p ++ (b'\n' ∷ hashed_lines ps)

module _ (unicode_lower trim_space : Bytes → Bytes) where
  unfoldable pub clean_domain : Bytes → Bytes
  clean_domain d = to_lower unicode_lower (trim_space (trim_suffix d (bytes ".")))

  unfoldable pub clean_category : Bytes → Bytes
  clean_category c = to_lower unicode_lower (trim_space c)

  unfoldable pub hash_pairs : List ThreatFeedRow → List Bytes
  hash_pairs [] = []
  hash_pairs (r ∷ rows) =
      let d = clean_domain r.domain in
      let rest = hash_pairs rows in
      if length d == 0 then rest else (d ++ (bytes "|" ++ clean_category r.category)) ∷ rest

  unfoldable pub hash_rows :
      (List Bytes → List Bytes) → (Bytes → Bytes) → List ThreatFeedRow → Bytes
  hash_rows sort_strings sha256_hex rows =
      sha256_hex (hashed_lines (sort_strings (hash_pairs rows)))

  -- The key and the row that are inserted, `none` for a row that is skipped.
  unfoldable pub blocked_row : Bytes → Bytes → ThreatFeedRow → Option (Bytes × BlockedRow)
  blocked_row source fallback r =
      let d = clean_domain r.domain in
      let c = clean_category r.category in
      let cat = if length c == 0 then fallback else c in
      if length d == 0
      then none
      else if length cat == 0
      then none
      else some (d, record { category = cat; source = source })

  -- `none` is an error of a statement.
  unfoldable pub insert_rows :
      (Bytes → Bool)
      → Bytes
      → Bytes
      → List ThreatFeedRow
      → Dict BlockedRow
      → Option (Dict BlockedRow)
  insert_rows inserts source fallback [] t = some t
  insert_rows inserts source fallback (r ∷ rows) t = elim (blocked_row source fallback r) [
    | none ↦ insert_rows inserts source fallback rows t
    | some (d, row) ↦
        let rest = insert_rows inserts source fallback rows (insert_or_ignore d row t) in
        if inserts d then rest else none
  ]

  -- The state behind, and whether `nil` was returned; without a commit nothing is written.
  unfoldable pub apply_blocklist_source :
      Statements → Bytes → List ThreatFeedRow → Bytes → Bytes → Db → Db × Bool
  apply_blocklist_source st source rows new_hash fallback db =
      let cleared = delete_where (λ (r : BlockedRow). same r.source source) db.dns_blocklist in
      if not (st.begins && st.deletes && st.prepares)
      then (db, false)
      else elim (insert_rows st.inserts source fallback rows cleared) [
        | none ↦ (db, false)
        | some t ↦
            if st.writes_hash && st.commits
            then (
              record {
                tunnel_config = insert (hash_key source) new_hash db.tunnel_config;
                dns_blocklist = t;
              },
              true,
            )
            else (db, false)
      ]

  module _ (sort_strings : List Bytes → List Bytes) (sha256_hex : Bytes → Bytes)
      (decode : Bytes → Option (List ThreatFeedRow)) where
    unfoldable pub sync_blocklist_source :
        Statements → Option Reply → Bytes → Bytes → Db → Db × Bool
    sync_blocklist_source st none source fallback db = (db, false)
    sync_blocklist_source st (some reply) source fallback db =
        if leb 400 reply.status then (db, false) else elim (decode reply.body) [
          | none ↦ (db, false)
          | some rows ↦
              let incoming = hash_rows sort_strings sha256_hex rows in
              if same (config_value (hash_key source) db.tunnel_config) incoming
              then (db, true)
              else apply_blocklist_source st source rows incoming fallback db
        ]

    -- A cycle of the loop; the flag says whether the resolver's list is reloaded, if there is one.
    unfoldable pub sync_cycle :
        Statements → Statements → Option Reply → Option Reply → Db → Db × Bool
    sync_cycle st st' threats categories db =
        let first = sync_blocklist_source st threats source_threat_feeds (bytes "malware") db in
        let second = sync_blocklist_source st' categories source_category_map [] first.0 in
        (second.0, first.1 || second.1)
