-- ===== src/Tests/Mirror.antt =====
-- The mirror of internal/controlsync/nrdsync.go against a cloud that gives one row a page.
use safeswitch_router.Common.{
  ℕ, zero, suc, ◌≤◌, ◌<◌, ◌≡◌, ◌⊎◌, refl, true, false, Option, none, some, List, [], ◌∷◌, arith,
  Bytes, bytes, length, take, drop, any, same, inl,
}
use safeswitch_router.Common.Dict.{lookup, insert}
use safeswitch_router.Dns.Blocklist.{normalize}
use safeswitch_router.Dns.Blocklist.Lookups.{names}
use safeswitch_router.Dns.Nrd.{QueryResult, is_nrd, reload}
use safeswitch_router.Controlsync.Client.{Reply}
use safeswitch_router.Controlsync.Tables.{Statements, insert_or_ignore}
use safeswitch_router.Controlsync.Nrd.Batches.{mem}
use safeswitch_router.Controlsync.Nrd.Mirror.{
  NrdDb, Page, page_of, page_at, fetch_all_nrd_domains, insert_domains, sync_nrd_blocklist,
}
use safeswitch_router.Controlsync.Nrd.Paging.{IsPaged}
use safeswitch_router.Controlsync.Nrd.Served.{keys, mirror, sync_nrd_blocklist-is_nrd}

abbrev id_bytes : Bytes → Bytes
id_bytes s = s

abbrev sort_strings : List Bytes → List Bytes
sort_strings ss = ss

abbrev all_succeed : Statements
all_succeed = record {
  begins = true;
  deletes = true;
  prepares = true;
  inserts = λ d. true;
  writes_hash = true;
  commits = true;
}

abbrev table : List Bytes
table = bytes "a.com" ∷ bytes "b.com" ∷ []

abbrev get_range : ℕ → ℕ → Option Reply
get_range zero last = some (record { body = bytes "a.com"; status = 206; headers = none })
get_range (suc zero) last = some (record { body = bytes "b.com"; status = 206; headers = none })
get_range (suc (suc n)) last = some (record { body = []; status = 416; headers = none })

abbrev decode : Bytes → Option (List Bytes)
decode body = some (body ∷ [])

table-IsPaged : IsPaged get_range decode table
unfolding page_of
table-IsPaged = record { within = inside; behind = outside }
  where
    inside :
        (offset : ℕ)
        → offset < length table
        → (n : ℕ) × (page_at get_range decode offset ≡ Page.page (take (suc n) (drop offset table)))
    inside zero l = (0, refl)
    inside (suc zero) l = (0, refl)
    inside (suc (suc n)) l = absurd (omega arith)

    outside :
        (offset : ℕ)
        → length table ≤ offset
        → (page_at get_range decode offset ≡ Page.past_end)
          ⊎ (page_at get_range decode offset ≡ Page.page [])
    outside zero l = absurd (omega arith)
    outside (suc zero) l = absurd (omega arith)
    outside (suc (suc n)) l = inl refl

abbrev nrd_db : NrdDb
nrd_db = record { tunnel_config = []; nrd_blocklist = [] }

sync_nrd_blocklist-is_nrd_example :
    is_nrd id_bytes
      (reload
        (QueryResult.fetched
          (keys
            (mirror get_range decode sort_strings id_bytes id_bytes 3 all_succeed
              nrd_db).db.nrd_blocklist)
          false)
        []).0
      (bytes "x.b.com")
    ≡ any (λ x. mem x table) (names (normalize id_bytes (bytes "x.b.com")))
unfolding fetch_all_nrd_domains page_of sync_nrd_blocklist insert_domains insert_or_ignore lookup
    insert same
sync_nrd_blocklist-is_nrd_example =
    sync_nrd_blocklist-is_nrd get_range decode sort_strings id_bytes id_bytes table 3 all_succeed
      nrd_db [] (bytes "x.b.com") table-IsPaged (omega arith) (λ d. refl) refl
