-- ===== src/Controlsync/Nrd/Batches.antt =====
-- The loop of an ingest of internal/controlsync/nrdsync.go: what was sent when it ends.
use safeswitch_router.Common.{
  ℕ, suc, ◌+◌, ◌<◌, ◌≡◌, refl, ap, ◌∙◌, Bool, true, false, not, ◌&&◌, Option, none, some, List, [],
  ◌∷◌, ◌++◌, map, arith, Bytes, length, any, any-append, length-append, append_assoc, append-nil,
  leb, ltb, same, ◌==◌, if◌then◌else◌, Bool-cases, Option-cases, inl, inr,
}
use safeswitch_router.Common.Dict.{is_some}
use safeswitch_router.Controlsync.Nrd.Requests.{
  nrd_row, Cloud, IsLawful, pruned_rows, seen_in, not_before,
}
use safeswitch_router.Controlsync.Nrd.{
  nrd_batch_size, RunError, Loop, nrd_upsert_batch, flush_full, nrd_line, nrd_lines, IngestRun,
  finish_run,
}

abbrev pub mem : Bytes → List Bytes → Bool
mem d = any (λ x. same x d)

-- The domains of the lines that are not skipped.
abbrev pub domains_of : List Bytes → List Bytes
domains_of [] = []
domains_of (d ∷ ds) = if length d == 0 then domains_of ds else d ∷ domains_of ds

abbrev seen_now : Bool → ℕ → Option ℕ → Option ℕ
seen_now b ts old = if b then some ts else old

seen_in-batch :
    (d : Bytes) (ts : ℕ) (ds : List Bytes) (old : Option ℕ)
    → seen_in d (map (nrd_row ts) ds) old ≡ seen_now (mem d ds) ts old
unfolding nrd_row
seen_in-batch d ts [] old = refl
seen_in-batch d ts (x ∷ ds) old =
    ground (arith, seen_in-batch d ts ds old, seen_in-batch d ts ds (some ts))

module _ (C : Cloud) (L : IsLawful C) (ts : ℕ) (s0 : C.State) where
  upsert-last_seen :
      (ds : List Bytes) (s : C.State) (d : Bytes)
      → (nrd_upsert_batch C ds ts s).1 ≡ true
      → C.last_seen (nrd_upsert_batch C ds ts s).0 d ≡ seen_now (mem d ds) ts (C.last_seen s d)
  unfolding nrd_upsert_batch
  upsert-last_seen ds s d e =
      L.last_seen-post (map (nrd_row ts) ds) s d e ∙ seen_in-batch d ts ds (C.last_seen s d)

  -- A loop that goes on has counted the domains `done`, and has sent them all but the batch.
  abbrev pub IsCurrent : List Bytes → Option RunError → Loop C → Type 0
  IsCurrent done (some e) l = Unit {0}
  IsCurrent done none l =
      (l.fetched ≡ length done)
      × (l.upserted + length l.batch ≡ l.fetched)
      × (length l.batch < nrd_batch_size)
      × ((d : Bytes)
          → seen_now (mem d l.batch) ts (C.last_seen l.cloud d)
            ≡ seen_now (mem d done) ts (C.last_seen s0 d))

  flush_full-IsCurrent :
      (done batch : List Bytes) (fetched upserted : ℕ) (cloud : C.State)
      → fetched ≡ length done
      → upserted + length batch ≡ fetched
      → ((d : Bytes)
          → seen_now (mem d batch) ts (C.last_seen cloud d)
            ≡ seen_now (mem d done) ts (C.last_seen s0 d))
      → let l : Loop C = record {
        batch = batch;
        fetched = fetched;
        upserted = upserted;
        cloud = cloud;
        stopped = none;
      } in
        IsCurrent done (flush_full C ts l).stopped (flush_full C ts l)
  unfolding flush_full
  flush_full-IsCurrent done batch fetched upserted cloud f u v =
      elim (Bool-cases (leb nrd_batch_size (length batch))) [
        | inr b ↦ rw b (f, u, ground (arith, b), v)
        | inl b ↦ elim (Bool-cases (nrd_upsert_batch C batch ts cloud).1) [
          | inr o ↦ rw (b, o) tt
          | inl o ↦
              rw (b, o)
                (f, omega (arith, u), omega arith, λ d. upsert-last_seen batch cloud d o ∙ v d)
        ]
      ]

  cancel-IsCurrent :
      (done : List Bytes) (c : Bool) (l : Loop C)
      → IsCurrent done l.stopped l
      → let l' : Loop C =
          if not (is_some l.stopped) && c
          then record l { stopped = some RunError.cancelled }
          else l in
        IsCurrent done l'.stopped l'
  cancel-IsCurrent done c l v = elim (Bool-cases (not (is_some l.stopped) && c)) [
    | inl b ↦ rw b tt
    | inr b ↦ rw b v
  ]

  nrd_line-IsCurrent :
      (ctx_err : ℕ → Bool) (done : List Bytes) (d : Bytes) (stopped : Option RunError) (l : Loop C)
      → l.stopped ≡ stopped
      → IsCurrent done stopped l
      → IsCurrent
          (if length d == 0 then done else done ++ d ∷ [])
          (nrd_line C ctx_err ts d l).stopped
          (nrd_line C ctx_err ts d l)
  unfolding nrd_line
  nrd_line-IsCurrent ctx_err done d (some e) l s v = rw s tt
  nrd_line-IsCurrent ctx_err done d none l s (f, u, b, v) = elim (Bool-cases (length d == 0)) [
    | inl n ↦ rw (s, n) (f, u, b, v)
    | inr n ↦
        let taken : Loop C = record {
          batch = l.batch ++ d ∷ [];
          fetched = suc l.fetched;
          upserted = l.upserted;
          cloud = l.cloud;
          stopped = none;
        } in
        let full =
          flush_full-IsCurrent (done ++ d ∷ []) (l.batch ++ d ∷ []) (suc l.fetched) l.upserted
            l.cloud (ground (arith, f, length-append done (d ∷ [])))
            (ground (arith, u, length-append l.batch (d ∷ [])))
            (λ x. ground (
              arith,
              v x,
              any-append (λ y. same y x) l.batch (d ∷ []),
              any-append (λ y. same y x) done (d ∷ []),
            )) in
        let flushed = flush_full C ts taken in
        rw (s, n) (cancel-IsCurrent (done ++ d ∷ []) (ctx_err flushed.fetched) flushed full)
  ]

  pub nrd_lines-IsCurrent :
      (ctx_err : ℕ → Bool) (lines done : List Bytes) (l : Loop C)
      → IsCurrent done l.stopped l
      → IsCurrent
          (done ++ domains_of lines)
          (nrd_lines C ctx_err ts lines l).stopped
          (nrd_lines C ctx_err ts lines l)
  unfolding nrd_lines
  nrd_lines-IsCurrent ctx_err [] done l v = rw (append-nil done) v
  nrd_lines-IsCurrent ctx_err (d ∷ lines) done l v =
      let step = nrd_line-IsCurrent ctx_err done d l.stopped l refl v in
      let l' = nrd_line C ctx_err ts d l in
      elim (Bool-cases (length d == 0)) [
        | inl n ↦ rw n (nrd_lines-IsCurrent ctx_err lines done l' (rw n at step))
        | inr n ↦
            rw (n, ← append_assoc done (d ∷ []) (domains_of lines))
              (nrd_lines-IsCurrent ctx_err lines (done ++ d ∷ []) l' (rw n at step))
      ]

  -- A run without an error has counted and sent every domain, and the table holds those with this
  -- run's time and the others that are not older.
  abbrev pub IsDone : List Bytes → IngestRun C → Type 0
  IsDone domains run =
      (run.result.fetched ≡ length domains)
      × (run.result.upserted ≡ length domains)
      × ((d : Bytes)
          → C.last_seen run.cloud d
            ≡ not_before ts (seen_now (mem d domains) ts (C.last_seen s0 d)))

  -- The state behind the last batch.
  abbrev sent : List Bytes → C.State → C.State
  sent batch s = if ltb 0 (length batch) then (nrd_upsert_batch C batch ts s).0 else s

  sent-last_seen :
      (batch : List Bytes) (s : C.State) (d : Bytes)
      → (ltb 0 (length batch) && not (nrd_upsert_batch C batch ts s).1) ≡ false
      → C.last_seen (sent batch s) d ≡ seen_now (mem d batch) ts (C.last_seen s d)
  sent-last_seen [] s d e = refl
  sent-last_seen (x ∷ batch) s d e =
      ground (arith, upsert-last_seen (x ∷ batch) s d (ground (arith, e)))

  pub finish_run-IsDone :
      (scan_int : Bytes → Option ℕ) (modified hash : Bytes) (scan_fails : Bool)
      (domains : List Bytes) (l : Loop C)
      → IsCurrent domains l.stopped l
      → (finish_run C scan_int modified hash ts scan_fails l).error ≡ none
      → IsDone domains (finish_run C scan_int modified hash ts scan_fails l)
  unfolding finish_run
  finish_run-IsDone scan_int modified hash scan_fails domains l v e =
      let posts_fail = ltb 0 (length l.batch) && not (nrd_upsert_batch C l.batch ts l.cloud).1 in
      let s = sent l.batch l.cloud in
      elim (Option-cases l.stopped) [
        | inr (_, n) ↦ absurd (ground (arith, n, e))
        | inl n ↦ elim (Bool-cases scan_fails) [
          | inl b ↦ absurd (ground (arith, n, b, e))
          | inr b ↦ elim (Bool-cases posts_fail) [
            | inl p ↦ absurd (ground (arith, n, b, p, e))
            | inr p ↦ elim (Option-cases (pruned_rows (C.delete_before ts s).1)) [
              | inl o ↦ absurd (ground (arith, n, b, p, o, e))
              | inr (range, o) ↦
                  let (f, u, _, w) = rw n at v in
                  rw (n, b, p, o)
                    (
                      f,
                      u ∙ f,
                      λ d.
                          L.last_seen-delete ts s d (ground (arith, o))
                          ∙ ap (not_before ts) (sent-last_seen l.batch l.cloud d p ∙ w d),
                    )
            ]
          ]
        ]
      ]
