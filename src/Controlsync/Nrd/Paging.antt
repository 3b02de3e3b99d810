-- ===== src/Controlsync/Nrd/Paging.antt =====
-- The pages of internal/controlsync/nrdsync.go add up to the table, and the resolver answers by it.
use safeswitch_router.Common.{
  ℕ, zero, suc, ◌+◌, ◌≤◌, ◌<◌, ◌≡◌, ◌⊎◌, refl, sym, ap, ◌∙◌, Bool, true, ◌||◌, Option, some, List,
  [], ◌∷◌, ◌++◌, arith, Bytes, length, take, drop, append_assoc, append-nil, length-append,
  length-drop, drop_append, take-append-drop, Option-cases, inl, inr,
}
use safeswitch_router.Common.Dict.{lookup, has}
use safeswitch_router.Dns.Blocklist.{StringSet}
use safeswitch_router.Controlsync.Client.{Reply}
use safeswitch_router.Controlsync.Tables.{Statements, insert_or_ignore, lookup-insert_or_ignore}
use safeswitch_router.Controlsync.Nrd.Batches.{mem}
use safeswitch_router.Controlsync.Nrd.Mirror.{
  NrdDb, past_end, page, pages, page_at, fetch_all_nrd_domains, insert_domains, sync_nrd_blocklist,
}

module _ (get_range : ℕ → ℕ → Option Reply) (decode : Bytes → Option (List Bytes)) where
  -- The server answers from one table: some rows, at least one and as many as it likes, for an offset
  -- within it, and none or a 416 for one behind it.
  pub record IsPaged (table : List Bytes) : Type 0 where
    pub within :
        (offset : ℕ)
        → offset < length table
        → (n : ℕ) × (page_at get_range decode offset ≡ page (take (suc n) (drop offset table)))
    pub behind :
        (offset : ℕ)
        → length table ≤ offset
        → (page_at get_range decode offset ≡ past_end) ⊎ (page_at get_range decode offset ≡ page [])

  module _ (table : List Bytes) (p : IsPaged table) where
    fetch_from :
        (fuel : ℕ) (out rest : List Bytes)
        → out ++ rest ≡ table
        → length rest < fuel
        → fetch_all_nrd_domains get_range decode fuel out (length out) ≡ pages table
    unfolding fetch_all_nrd_domains
    fetch_from zero out rest e l = absurd (omega arith)
    fetch_from (suc fuel) out [] e l =
        let whole : out ≡ table = sym (append-nil out) ∙ e in
        elim (p.behind (length out) (ground (arith, ap length whole))) [
          | inl h ↦ ground (arith, h, whole)
          | inr h ↦ ground (arith, h, whole)
        ]
    fetch_from (suc fuel) out (r ∷ rest) e l =
        let size : length table ≡ length out + length (r ∷ rest) =
          ap length (sym e) ∙ length-append out (r ∷ rest) in
        let (n, h) = p.within (length out) (omega (arith, size)) in
        let at : drop (length out) table ≡ r ∷ rest =
          ap (drop (length out)) (sym e) ∙ drop_append out (r ∷ rest) in
        let got : page_at get_range decode (length out) ≡ page (r ∷ take n rest) =
          h ∙ ap (λ xs. page (take (suc n) xs)) at in
        let more = out ++ r ∷ take n rest in
        let split : more ++ drop n rest ≡ table =
          append_assoc out (r ∷ take n rest) (drop n rest)
          ∙ ap (λ xs. out ++ r ∷ xs) (take-append-drop n rest)
          ∙ e in
        let later = fetch_from fuel more (drop n rest) split (omega (arith, length-drop n rest)) in
        ground (arith, got, later, length-append out (r ∷ take n rest))

    -- The loop ends with the whole table, each row once and in its order, after at most one request
    -- more than it has rows.
    pub fetch_all_nrd_domains-table :
        (fuel : ℕ)
        → length table < fuel
        → fetch_all_nrd_domains get_range decode fuel [] 0 ≡ pages table
    fetch_all_nrd_domains-table fuel l = fetch_from fuel [] table refl l

insert_domains-has :
    (inserts : Bytes → Bool) (domains : List Bytes) (t t' : StringSet) (d : Bytes)
    → insert_domains inserts domains t ≡ some t'
    → has d t' ≡ (has d t || mem d domains)
unfolding insert_domains
insert_domains-has inserts [] t t' d e = ground (arith, e)
insert_domains-has inserts (x ∷ domains) t t' d e = ground (
  arith,
  e,
  lookup-insert_or_ignore x d tt t,
  insert_domains-has inserts domains (insert_or_ignore x tt t) t' d,
)

module _ (sort_strings : List Bytes → List Bytes) (sha256_hex : Bytes → Bytes) where
  -- A mirror that changed holds the domains that were fetched and no others.
  pub sync_nrd_blocklist-has :
      (st : Statements) (fetched : List Bytes) (db : NrdDb) (d : Bytes)
      → mem d (sort_strings fetched) ≡ mem d fetched
      → (sync_nrd_blocklist sort_strings sha256_hex st (pages fetched) db).changed ≡ some true
      → has d (sync_nrd_blocklist sort_strings sha256_hex st (pages fetched) db).db.nrd_blocklist
        ≡ mem d fetched
  unfolding sync_nrd_blocklist lookup
  sync_nrd_blocklist-has st fetched db d sorted e =
      elim (Option-cases (insert_domains st.inserts (sort_strings fetched) [])) [
        | inl n ↦ absurd (ground (arith, e, n))
        | inr (t, n) ↦
            ground
              (arith, e, n, sorted, insert_domains-has st.inserts (sort_strings fetched) [] t d n)
      ]
