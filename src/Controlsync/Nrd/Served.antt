-- ===== src/Controlsync/Nrd/Served.antt =====
-- From the cloud's table of newly-registered domains to the answers of internal/dns/nrd_blocklist.go.
use safeswitch_router.Common.{
  ℕ, ◌<◌, ◌≡◌, refl, ◌∙◌, true, false, ◌||◌, Option, some, List, [], ◌∷◌, arith, Bytes, length, any,
}
use safeswitch_router.Common.Dict.{lookup, insert, has, has-insert}
use safeswitch_router.Dns.Blocklist.{StringSet, normalize}
use safeswitch_router.Dns.Blocklist.Lookups.{names, any_ext}
use safeswitch_router.Dns.Nrd.{QueryResult, collect, reload, is_nrd, is_nrd-names}
use safeswitch_router.Controlsync.Client.{Reply}
use safeswitch_router.Controlsync.Tables.{Statements}
use safeswitch_router.Controlsync.Nrd.Batches.{mem}
use safeswitch_router.Controlsync.Nrd.Mirror.{
  NrdDb, fetch_all_nrd_domains, Mirrored, sync_nrd_blocklist,
}
use safeswitch_router.Controlsync.Nrd.Paging.{
  IsPaged, fetch_all_nrd_domains-table, sync_nrd_blocklist-has,
}

-- `SELECT domain FROM nrd_blocklist`
abbrev pub keys : StringSet → List Bytes
keys [] = []
keys ((d, _) ∷ t) = d ∷ keys t

collect-has : (d : Bytes) (t m : StringSet) → has d (collect (keys t) m) ≡ (has d t || has d m)
unfolding collect lookup
collect-has d [] m = refl
collect-has d ((x, u) ∷ t) m = ground (arith, collect-has d t (insert x tt m), has-insert x d tt m)

module _ (get_range : ℕ → ℕ → Option Reply) (decode : Bytes → Option (List Bytes))
    (sort_strings : List Bytes → List Bytes) (sha256_hex unicode_lower : Bytes → Bytes) where
  -- The mirror that a synchronisation against the cloud leaves.
  abbrev pub mirror : ℕ → Statements → NrdDb → Mirrored
  mirror fuel st db =
      sync_nrd_blocklist sort_strings sha256_hex st
        (fetch_all_nrd_domains get_range decode fuel [] 0) db

  -- Where the cloud pages one table, and the mirror changed and was loaded: a domain counts as newly
  -- registered exactly if the cloud's table has it or one of its parents.
  pub sync_nrd_blocklist-is_nrd :
      (table : List Bytes) (fuel : ℕ) (st : Statements) (db : NrdDb) (old : StringSet)
      (domain : Bytes)
      → IsPaged get_range decode table
      → length table < fuel
      → ((d : Bytes) → mem d (sort_strings table) ≡ mem d table)
      → (mirror fuel st db).changed ≡ some true
      → is_nrd unicode_lower
          (reload (QueryResult.fetched (keys (mirror fuel st db).db.nrd_blocklist) false) old).0
          domain
        ≡ any (λ x. mem x table) (names (normalize unicode_lower domain))
  unfolding reload lookup
  sync_nrd_blocklist-is_nrd table fuel st db old domain p l sorted e =
      let whole = fetch_all_nrd_domains-table get_range decode table p fuel l in
      let t = (mirror fuel st db).db.nrd_blocklist in
      let held : (d : Bytes) → has d t ≡ mem d table = λ d.
        rw whole (
          sync_nrd_blocklist-has sort_strings sha256_hex st table db d (sorted d)
            (rw whole at e)) in
      is_nrd-names unicode_lower (collect (keys t) []) domain
      ∙ any_ext (λ x. has x (collect (keys t) [])) (λ x. mem x table)
          (names (normalize unicode_lower domain)) (λ d. ground (arith, collect-has d t [], held d))
