-- ===== src/Controlsync/Nrd/Mirror.antt =====
-- internal/controlsync/nrdsync.go: the cloud's table, read page by page and mirrored into SQLite. The
-- reply to a request for a range, `encoding/json`, `sort.Strings` and the hexadecimal SHA-256 are
-- parameters. The loop over the pages has fuel, one unit for each request.
use safeswitch_router.Common.{
  ℕ, zero, suc, ◌+◌, ◌-◌, Bool, true, false, not, ◌&&◌, Option, none, some, List, [], ◌∷◌, ◌++◌,
  Bytes, bytes, length, same, ◌==◌, if◌then◌else◌,
}
use safeswitch_router.Common.Dict.{Dict, insert}
use safeswitch_router.Dns.Blocklist.{StringSet}
use safeswitch_router.Controlsync.Client.{Reply}
use safeswitch_router.Controlsync.Tables.{Statements, insert_or_ignore}
use safeswitch_router.Controlsync.Blocklists.{config_value, hashed_lines}

abbrev pub nrd_mirror_page_size : ℕ
nrd_mirror_page_size = 50000

abbrev pub nrd_hash_key : Bytes
nrd_hash_key = bytes "blocklist_nrd_hash"

pub record NrdDb : Type 0 where
  pub tunnel_config : Dict Bytes
  pub nrd_blocklist : StringSet

-- What a reply amounts to.
pub data Page : Type 0 where
  past_end : Page
  bad_page : Page
  page : List Bytes → Page

pub data Pages : Type 0 where
  out_of_fuel : Pages
  page_failed : Pages
  pages : List Bytes → Pages

module _ (get_range : ℕ → ℕ → Option Reply) (decode : Bytes → Option (List Bytes)) where
  unfoldable pub page_of : Option Reply → Page
  page_of none = bad_page
  page_of (some reply) =
      if reply.status == 416
      then past_end
      else if not (reply.status == 200) && not (reply.status == 206)
      then bad_page
      else elim (decode reply.body) [ none ↦ bad_page | some rows ↦ page rows ]

  abbrev pub page_at : ℕ → Page
  page_at offset = page_of (get_range offset (offset + nrd_mirror_page_size - 1))

  unfoldable pub fetch_all_nrd_domains : ℕ → List Bytes → ℕ → Pages
  fetch_all_nrd_domains zero out offset = out_of_fuel
  fetch_all_nrd_domains (suc fuel) out offset = elim (page_at offset) [
    | past_end ↦ pages out
    | bad_page ↦ page_failed
    | page rows ↦ elim rows [
      | [] ↦ pages out
      | r ∷ rs ↦ fetch_all_nrd_domains fuel (out ++ r ∷ rs) (offset + length (r ∷ rs))
    ]
  ]

-- `none` is an error of a statement.
unfoldable pub insert_domains : (Bytes → Bool) → List Bytes → StringSet → Option StringSet
insert_domains inserts [] t = some t
insert_domains inserts (d ∷ domains) t =
    let rest = insert_domains inserts domains (insert_or_ignore d tt t) in
    if inserts d then rest else none

-- Whether the mirror changed, `none` for an error.
pub record Mirrored : Type 0 where
  pub db : NrdDb
  pub changed : Option Bool

module _ (sort_strings : List Bytes → List Bytes) (sha256_hex : Bytes → Bytes) where
  unfoldable pub sync_nrd_blocklist : Statements → Pages → NrdDb → Mirrored
  sync_nrd_blocklist st out_of_fuel db = record { db = db; changed = none }
  sync_nrd_blocklist st page_failed db = record { db = db; changed = none }
  sync_nrd_blocklist st (pages fetched) db =
      let domains = sort_strings fetched in
      let new_hash = sha256_hex (hashed_lines domains) in
      let failed : Mirrored = record { db = db; changed = none } in
      if same (config_value nrd_hash_key db.tunnel_config) new_hash
      then record { db = db; changed = some false }
      else if not (st.begins && st.deletes && st.prepares)
      then failed
      else elim (insert_domains st.inserts domains []) [
        | none ↦ failed
        | some t ↦
            if st.writes_hash && st.commits
            then record {
              db = record {
                tunnel_config = insert nrd_hash_key new_hash db.tunnel_config;
                nrd_blocklist = t;
              };
              changed = some true;
            }
            else failed
      ]
