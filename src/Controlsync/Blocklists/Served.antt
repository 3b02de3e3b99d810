-- ===== src/Controlsync/Blocklists/Served.antt =====
-- From a feed of internal/controlsync/blocklistsync.go to the answers of internal/dns/blocklist.go.
use safeswitch_router.Common.{
  ◌<◌, ◌≡◌, ap, ◌∙◌, true, false, Option, some, List, [], ◌∷◌, arith, Bytes, length, same, same_iff,
  inl, inr,
}
use safeswitch_router.Common.Dict.{Dict, is_some, lookup, keyed}
use safeswitch_router.Dns.Blocklist.{Blocklist, fetched, normalize, load, is_blocked}
use safeswitch_router.Dns.Blocklist.Loading.{blocked, entries}
use safeswitch_router.Dns.Blocklist.Lookups.{is_blocked-load}
use safeswitch_router.Controlsync.Client.{Reply}
use safeswitch_router.Controlsync.Tables.{Statements}
use safeswitch_router.Controlsync.Blocklists.{ThreatFeedRow, BlockedRow, Db, hash_key, config_value}
use safeswitch_router.Controlsync.Blocklists.Syncs.{
  first_row, sync, feed_of, sync_blocklist_source-IsReplaced,
}

-- `SELECT domain, category FROM dns_blocklist`
abbrev pub table_rows : Dict BlockedRow → List (Option (Bytes × Bytes))
table_rows [] = []
table_rows ((d, r) ∷ t) = some (d, r.category) ∷ table_rows t

module _ (unicode_lower : Bytes → Bytes) where
  blocked-table_rows :
      (d : Bytes) (t : Dict BlockedRow)
      → is_some (lookup d t) ≡ true
      → 0 < length (normalize unicode_lower d)
      → blocked (normalize unicode_lower d) (entries unicode_lower (table_rows t)) ≡ true
  unfolding lookup
  blocked-table_rows d [] h l = cc
  blocked-table_rows d ((j, r) ∷ t) h l = ground (
    arith,
    same_iff j d,
    same_iff (normalize unicode_lower d) (normalize unicode_lower d),
    blocked-table_rows d t,
  )

  -- Every domain of `dns_blocklist` is blocked once the resolver has loaded the table.
  pub is_blocked-table_rows :
      (d : Bytes) (t : Dict BlockedRow) (old : Blocklist)
      → is_some (lookup d t) ≡ true
      → 0 < length (normalize unicode_lower d)
      → is_blocked unicode_lower (load unicode_lower (fetched (table_rows t) false) old).0 d ≡ true
  is_blocked-table_rows d t old h l =
      is_blocked-load unicode_lower (table_rows t) old d
      ∙ ground (arith, l, blocked-table_rows d t h l)

module _ (unicode_lower trim_space : Bytes → Bytes) (source fallback : Bytes)
    (sort_strings : List Bytes → List Bytes) (sha256_hex : Bytes → Bytes)
    (decode : Bytes → Option (List ThreatFeedRow)) where
  abbrev behind : Statements → Option Reply → Db → Db
  behind st reply db =
      (sync unicode_lower trim_space source fallback sort_strings sha256_hex decode st reply db).0

  -- A synchronisation that changes anything, and a reload of the resolver behind it: every domain
  -- that a row of the feed gives with a category is blocked, if more of it is left than a dot.
  pub sync_blocklist_source-is_blocked :
      (st : Statements) (reply : Option Reply) (db : Db) (d : Bytes) (old : Blocklist)
      (rows : List ThreatFeedRow)
      → keyed db.dns_blocklist ≡ true
      → feed_of unicode_lower trim_space source fallback sort_strings sha256_hex decode reply
        ≡ some rows
      → same
          (config_value (hash_key source) (behind st reply db).tunnel_config)
          (config_value (hash_key source) db.tunnel_config)
        ≡ false
      → is_some (first_row unicode_lower trim_space source fallback d rows) ≡ true
      → 0 < length (normalize unicode_lower d)
      → is_blocked unicode_lower
          (load unicode_lower (fetched (table_rows (behind st reply db).dns_blocklist) false) old).0
          d
        ≡ true
  sync_blocklist_source-is_blocked st reply db d old rows u n changed m l =
      elim (sync_blocklist_source-IsReplaced unicode_lower trim_space source fallback sort_strings
        sha256_hex decode st reply db u) [
          | inl (e, _) ↦ absurd (
              ground (
                arith,
                changed,
                ap (λ (x : Db). config_value (hash_key source) x.tunnel_config) e,
                same_iff (config_value (hash_key source) (behind st reply db).tunnel_config)
                    (config_value (hash_key source) db.tunnel_config),
              ))
          | inr (rows', n', (h, t), _) ↦
              is_blocked-table_rows unicode_lower d (behind st reply db).dns_blocklist old
                (ground (arith, n, n', t d, m)) l
        ]
