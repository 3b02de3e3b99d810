-- ===== src/Controlsync/Blocklists/Syncs.antt =====
-- What a synchronisation of internal/controlsync/blocklistsync.go leaves in `dns_blocklist`.
use safeswitch_router.Common.{
  ◌≡◌, ◌⊎◌, refl, Bool, true, false, ◌&&◌, Option, none, some, List, [], ◌∷◌, arith, Bytes, leb,
  same, same_iff, if◌then◌else◌, Bool-cases, Option-cases, inl, inr,
}
use safeswitch_router.Common.Dict.{Dict, lookup, keyed, lookup-insert}
use safeswitch_router.Controlsync.Client.{Reply}
use safeswitch_router.Controlsync.Tables.{
  Statements, insert_or_ignore, delete_where, kept, lookup-insert_or_ignore, lookup-delete_where,
}
use safeswitch_router.Controlsync.Blocklists.{
  ThreatFeedRow, BlockedRow, Db, hash_key, config_value, hash_rows, blocked_row, insert_rows,
  apply_blocklist_source, sync_blocklist_source,
}

abbrev or_else : Option BlockedRow → Option BlockedRow → Option BlockedRow
or_else none o = o
or_else (some r) o = some r

module _ (unicode_lower trim_space : Bytes → Bytes) (source fallback : Bytes) where
  -- The first row of the feed for a domain.
  abbrev pub first_row : Bytes → List ThreatFeedRow → Option BlockedRow
  first_row k [] = none
  first_row k (r ∷ rows) =
      let rest = first_row k rows in
      elim (blocked_row unicode_lower trim_space source fallback r) [
        | none ↦ rest
        | some (d, row) ↦ if same d k then some row else rest
      ]

  -- The row of a domain behind a feed that went in: a row of another source if there was one, else
  -- the first of the feed.
  abbrev pub expected : List ThreatFeedRow → Dict BlockedRow → Bytes → Option BlockedRow
  expected rows t k = or_else (kept (λ r. same r.source source) (lookup k t)) (first_row k rows)

  insert_rows-lookup :
      (inserts : Bytes → Bool) (k : Bytes) (rows : List ThreatFeedRow) (t t' : Dict BlockedRow)
      → insert_rows unicode_lower trim_space inserts source fallback rows t ≡ some t'
      → lookup k t' ≡ or_else (lookup k t) (first_row k rows)
  unfolding insert_rows
  insert_rows-lookup inserts k [] t t' e = ground (arith, e)
  insert_rows-lookup inserts k (r ∷ rows) t t' e =
      elim (Option-cases (blocked_row unicode_lower trim_space source fallback r)) [
        | inl n ↦ ground (arith, e, n, insert_rows-lookup inserts k rows t t')
        | inr ((d, row), n) ↦
            let t1 = insert_or_ignore d row t in
            ground (
              arith,
              e,
              n,
              insert_rows-lookup inserts k rows t1 t',
              lookup-insert_or_ignore d k row t,
            )
      ]

  -- A statement of the transaction fails.
  abbrev pub Fails : Statements → Type 0
  Fails st =
      ((st.begins && st.deletes && st.prepares) ≡ false)
      ⊎ (((d : Bytes) × (st.inserts d ≡ false)) ⊎ ((st.writes_hash && st.commits) ≡ false))

  insert_rows-none :
      (inserts : Bytes → Bool) (rows : List ThreatFeedRow) (t : Dict BlockedRow)
      → insert_rows unicode_lower trim_space inserts source fallback rows t ≡ none
      → (d : Bytes) × (inserts d ≡ false)
  unfolding insert_rows
  insert_rows-none inserts [] t e = cc
  insert_rows-none inserts (r ∷ rows) t e =
      elim (Option-cases (blocked_row unicode_lower trim_space source fallback r)) [
        | inl n ↦ insert_rows-none inserts rows t (ground (arith, e, n))
        | inr ((d, row), n) ↦ elim (Bool-cases (inserts d)) [
          | inr b ↦ (d, b)
          | inl b ↦
              insert_rows-none inserts rows (insert_or_ignore d row t) (ground (arith, e, n, b))
        ]
      ]

  -- A transaction that is committed replaces the rows of its source and no others.
  abbrev pub IsReplaced : List ThreatFeedRow → Bytes → Db → Db → Type 0
  IsReplaced rows new_hash db db' =
      (config_value (hash_key source) db'.tunnel_config ≡ new_hash)
      × ((k : Bytes) → lookup k db'.dns_blocklist ≡ expected rows db.dns_blocklist k)

  pub apply-IsReplaced :
      (st : Statements) (rows : List ThreatFeedRow) (new_hash : Bytes) (db : Db)
      → keyed db.dns_blocklist ≡ true
      → let o =
          apply_blocklist_source unicode_lower trim_space st source rows new_hash fallback db in
        ((o.0 ≡ db) × Fails st × (o.1 ≡ false)) ⊎ (IsReplaced rows new_hash db o.0 × (o.1 ≡ true))
  unfolding apply_blocklist_source
  apply-IsReplaced st rows new_hash db u =
      let cleared = delete_where (λ (r : BlockedRow). same r.source source) db.dns_blocklist in
      elim (Bool-cases (st.begins && st.deletes && st.prepares)) [
        | inr b ↦ inl (ground (arith, b), inl b, ground (arith, b))
        | inl b ↦
            elim (Option-cases
              (insert_rows unicode_lower trim_space st.inserts source fallback rows cleared)) [
                | inl n ↦ inl (
                  ground (arith, b, n),
                  inr (inl (insert_rows-none st.inserts rows cleared n)),
                  ground (arith, b, n),
                )
                | inr (t, n) ↦ elim (Bool-cases (st.writes_hash && st.commits)) [
                  | inr c ↦ inl (ground (arith, b, n, c), inr (inr c), ground (arith, b, n, c))
                  | inl c ↦ inr (
                      rw (b, n, c)
                        (
                          (
                            ground (
                              arith,
                              lookup-insert (hash_key source) (hash_key source) new_hash
                                  db.tunnel_config,
                              same_iff (hash_key source) (hash_key source),
                            ),
                            λ k. ground (
                              arith,
                              insert_rows-lookup st.inserts k rows cleared t n,
                              lookup-delete_where (λ (r : BlockedRow). same r.source source) k
                                  db.dns_blocklist u,
                            ),
                          ),
                          refl,
                        ))
                ]
              ]
      ]

  module _ (sort_strings : List Bytes → List Bytes) (sha256_hex : Bytes → Bytes)
      (decode : Bytes → Option (List ThreatFeedRow)) where
    abbrev pub sync : Statements → Option Reply → Db → Db × Bool
    sync st reply db =
        sync_blocklist_source unicode_lower trim_space sort_strings sha256_hex decode st reply
          source fallback db

    -- The rows of an accepted reply.
    abbrev pub feed_of : Option Reply → Option (List ThreatFeedRow)
    feed_of none = none
    feed_of (some reply) = if leb 400 reply.status then none else decode reply.body

    abbrev pub hash : List ThreatFeedRow → Bytes
    hash = hash_rows unicode_lower trim_space sort_strings sha256_hex

    -- Why nothing changes: there is no feed, or a statement fails, both an error, or the feed's hash is
    -- the one that is kept, which is none.
    abbrev pub IsRefused : Statements → Option Reply → Db → Type 0
    IsRefused st reply db =
        ((feed_of reply ≡ none) × ((sync st reply db).1 ≡ false))
        ⊎ ((rows : List ThreatFeedRow) × (feed_of reply ≡ some rows)
            × ((Fails st × ((sync st reply db).1 ≡ false))
                ⊎ ((config_value (hash_key source) db.tunnel_config ≡ hash rows)
                    × ((sync st reply db).1 ≡ true))))

    -- Either nothing changes, for one of three reasons: no rows can be read from the reply, or a
    -- statement of the transaction fails, both an error, or the feed's hash is the one that is kept.
    -- Or the rows of the source are replaced by the feed's and its hash is kept. A domain that another
    -- source holds keeps its row in every case, and hides the feed's.
    pub sync_blocklist_source-IsReplaced :
        (st : Statements) (reply : Option Reply) (db : Db)
        → keyed db.dns_blocklist ≡ true
        → (((sync st reply db).0 ≡ db) × IsRefused st reply db)
          ⊎ ((rows : List ThreatFeedRow) × (feed_of reply ≡ some rows)
              × IsReplaced rows (hash rows) db (sync st reply db).0
              × ((sync st reply db).1 ≡ true))
    unfolding sync_blocklist_source
    sync_blocklist_source-IsReplaced st none db u = inl (refl, inl (refl, refl))
    sync_blocklist_source-IsReplaced st (some reply) db u =
        elim (Bool-cases (leb 400 reply.status)) [
          | inl b ↦ inl (ground (arith, b), inl (ground (arith, b), ground (arith, b)))
          | inr b ↦ elim (Option-cases (decode reply.body)) [
            | inl n ↦ inl (ground (arith, b, n), inl (ground (arith, b, n), ground (arith, b, n)))
            | inr (rows, n) ↦
                elim (Bool-cases
                  (same (config_value (hash_key source) db.tunnel_config) (hash rows))) [
                    | inl h ↦ inl (
                      ground (arith, b, n, h),
                      inr (
                        rows,
                        ground (arith, b, n),
                        inr (
                          ground (
                            arith,
                            h,
                            same_iff (config_value (hash_key source) db.tunnel_config) (hash rows),
                          ),
                          ground (arith, b, n, h),
                        ),
                      ),
                    )
                    | inr h ↦ elim (apply-IsReplaced st rows (hash rows) db u) [
                      | inl (e, f, g) ↦ inl (
                        rw (b, n, h) e,
                        inr (rows, ground (arith, b, n), inl (f, rw (b, n, h) g)),
                      )
                      | inr (e, f) ↦
                          inr (rows, ground (arith, b, n), rw (b, n, h) e, rw (b, n, h) f)
                    ]
                  ]
          ]
        ]
