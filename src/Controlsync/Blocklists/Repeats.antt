-- ===== src/Controlsync/Blocklists/Repeats.antt =====
-- A synchronisation of internal/controlsync/blocklistsync.go that is repeated changes nothing.
use safeswitch_router.Common.{
  ◌≡◌, Bool, true, Option, none, some, List, arith, Bytes, leb, same, same_iff, Bool-cases,
  Option-cases, inl, inr,
}
use safeswitch_router.Common.Dict.{keyed}
use safeswitch_router.Controlsync.Client.{Reply}
use safeswitch_router.Controlsync.Tables.{Statements}
use safeswitch_router.Controlsync.Blocklists.{
  ThreatFeedRow, Db, hash_key, config_value, hash_rows, sync_blocklist_source,
}
use safeswitch_router.Controlsync.Blocklists.Syncs as Syncs
use safeswitch_router.Controlsync.Blocklists.Syncs.{IsReplaced, apply-IsReplaced}

module _ (unicode_lower trim_space : Bytes → Bytes) (source fallback : Bytes)
    (sort_strings : List Bytes → List Bytes) (sha256_hex : Bytes → Bytes)
    (decode : Bytes → Option (List ThreatFeedRow)) where
  abbrev sync : Statements → Option Reply → Db → Db × Bool
  sync = Syncs.sync unicode_lower trim_space source fallback sort_strings sha256_hex decode

  abbrev feed_of : Option Reply → Option (List ThreatFeedRow)
  feed_of = Syncs.feed_of unicode_lower trim_space source fallback sort_strings sha256_hex decode

  abbrev hash : List ThreatFeedRow → Bytes
  hash = hash_rows unicode_lower trim_space sort_strings sha256_hex

  sync-accepted :
      (st : Statements) (reply : Option Reply) (db : Db)
      → keyed db.dns_blocklist ≡ true
      → (sync st reply db).1 ≡ true
      → (rows : List ThreatFeedRow) × (feed_of reply ≡ some rows)
        × (config_value (hash_key source) (sync st reply db).0.tunnel_config ≡ hash rows)
  unfolding sync_blocklist_source
  sync-accepted st none db u e = cc
  sync-accepted st (some reply) db u e = elim (Bool-cases (leb 400 reply.status)) [
    | inl b ↦ absurd (ground (arith, b, e))
    | inr b ↦ elim (Option-cases (decode reply.body)) [
      | inl n ↦ absurd (ground (arith, b, n, e))
      | inr (rows, n) ↦
          elim (Bool-cases (same (config_value (hash_key source) db.tunnel_config) (hash rows))) [
            | inl h ↦ (
              rows,
              ground (arith, b, n),
              ground (
                arith,
                b,
                n,
                h,
                same_iff (config_value (hash_key source) db.tunnel_config) (hash rows),
              ),
            )
            | inr h ↦
                elim (apply-IsReplaced unicode_lower trim_space source fallback st rows (hash rows)
                  db u) [
                    | inl (_, _, f) ↦ absurd (ground (arith, b, n, h, f, e))
                    | inr ((kept_hash, _), _) ↦ (rows, ground (arith, b, n), rw (b, n, h) kept_hash)
                  ]
          ]
    ]
  ]

  sync-unchanged :
      (st : Statements) (reply : Option Reply) (db : Db) (rows : List ThreatFeedRow)
      → feed_of reply ≡ some rows
      → config_value (hash_key source) db.tunnel_config ≡ hash rows
      → sync st reply db ≡ (db, true)
  unfolding sync_blocklist_source
  sync-unchanged st none db rows n h = cc
  sync-unchanged st (some reply) db rows n h =
      ground (arith, n, h, same_iff (config_value (hash_key source) db.tunnel_config) (hash rows))

  -- Behind a synchronisation without an error the same reply changes nothing and is no error,
  -- whatever the statements of the database would do.
  pub sync_blocklist_source-idempotent :
      (st st' : Statements) (reply : Option Reply) (db : Db)
      → keyed db.dns_blocklist ≡ true
      → (sync st reply db).1 ≡ true
      → sync st' reply (sync st reply db).0 ≡ ((sync st reply db).0, true)
  sync_blocklist_source-idempotent st st' reply db u e =
      let (rows, n, h) = sync-accepted st reply db u e in
      sync-unchanged st' reply (sync st reply db).0 rows n h
