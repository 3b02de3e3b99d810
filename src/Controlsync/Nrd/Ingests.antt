-- ===== src/Controlsync/Nrd/Ingests.antt =====
-- What an ingest of internal/controlsync/nrdsync.go leaves in the cloud's table.
use safeswitch_router.Common.{
  ℕ, suc, ◌<◌, ◌≡◌, refl, Bool, true, false, not, Option, none, some, List, [], ◌∷◌, ◌++◌, map,
  arith, Bytes, bytes, length, ◌==◌, Bool-cases, Option-cases, inl, inr,
}
use safeswitch_router.Common.Dict.{is_some}
use safeswitch_router.Controlsync.Nrd.Requests.{
  NrdRow, nrd_row, Cloud, IsLawful, is_accepted, pruned_rows,
}
use safeswitch_router.Controlsync.Nrd.{
  normalize_nrd_line, RunError, Feed, feed, unreachable, Loop, nrd_upsert_batch, flush_full,
  nrd_line, nrd_lines, IngestRun, finish_run, nrd_run_inner, Ingest, Audit, nrd_finalize_run,
  ingest_nrd_once,
}
use safeswitch_router.Controlsync.Nrd.Batches.{
  mem, domains_of, IsDone, nrd_lines-IsCurrent, finish_run-IsDone,
}

is_none : (o : Option RunError) → not (is_some o) ≡ true → o ≡ none
is_none none h = refl
is_none (some e) h = cc

abbrev pub lines_of : Feed → List Bytes
lines_of unreachable = []
lines_of (feed status modified lines scan_fails) = lines

module _ (C : Cloud) (unicode_lower trim_space : Bytes → Bytes) (scan_int : Bytes → Option ℕ)
    (ctx_err : ℕ → Bool) (hash : Bytes) (ts : ℕ) where
  abbrev pub listed_domains : Feed → List Bytes
  listed_domains f = domains_of (map (normalize_nrd_line unicode_lower trim_space) (lines_of f))

  abbrev inner : Feed → C.State → IngestRun C
  inner = nrd_run_inner C unicode_lower trim_space scan_int ctx_err hash ts

  abbrev pub ingest :
      Option Bytes → Feed → C.State → Ingest C unicode_lower trim_space scan_int ctx_err hash ts
  ingest = ingest_nrd_once C unicode_lower trim_space scan_int ctx_err hash ts

  nrd_run_inner-IsDone :
      (f : Feed) (s : C.State) (L : IsLawful C)
      → (inner f s).error ≡ none
      → IsDone C L ts s (listed_domains f) (inner f s)
  unfolding nrd_run_inner
  nrd_run_inner-IsDone unreachable s L e = cc
  nrd_run_inner-IsDone (feed status modified lines scan_fails) s L e =
      elim (Bool-cases (status == 200)) [
        | inr b ↦ absurd (ground (arith, b, e))
        | inl b ↦
            let start : Loop C = record {
              batch = [];
              fetched = 0;
              upserted = 0;
              cloud = s;
              stopped = none;
            } in
            let domains = map (normalize_nrd_line unicode_lower trim_space) lines in
            rw b (
              finish_run-IsDone C L ts s scan_int modified hash scan_fails (domains_of domains)
                (nrd_lines C ctx_err ts domains start)
                (nrd_lines-IsCurrent C L ts s ctx_err domains [] start
                  (refl, refl, omega arith, λ d. refl))
                (rw b at e))
      ]

  -- The audit says `ok` and counts `n` domains fetched and sent.
  abbrev pub IsCounted :
      ℕ → Option (Audit C unicode_lower trim_space scan_int ctx_err hash ts) → Type 0
  IsCounted n none = ⊥
  IsCounted n (some a) = (a.status ≡ bytes "ok") × (a.result.fetched ≡ n) × (a.result.upserted ≡ n)

  -- Behind an ingest that returns no error, into a table with earlier times alone, the table holds
  -- the domains of the feed's lines and no others, and the finished row of the audit says `ok` and
  -- counts them as fetched and as sent.
  pub ingest_nrd_once-IsMirror :
      (started : Option Bytes) (f : Feed) (s : C.State)
      → IsLawful C
      → ((d : Bytes) (t : ℕ) → C.last_seen s d ≡ some t → t < ts)
      → (ingest started f s).is_ok ≡ true
      → ((d : Bytes)
          → is_some (C.last_seen (ingest started f s).cloud d) ≡ mem d (listed_domains f))
        × IsCounted (length (listed_domains f)) (ingest started f s).audit
  unfolding ingest_nrd_once nrd_finalize_run
  ingest_nrd_once-IsMirror none f s L old e = cc
  ingest_nrd_once-IsMirror (some run_id) f s L old e =
      let done : (inner f s).error ≡ none = is_none (inner f s).error (ground (arith, e)) in
      let (fetched, upserted, seen) = nrd_run_inner-IsDone f s L done in
      (
        λ d. elim (Option-cases (C.last_seen s d)) [
          | inl n ↦ ground (arith, seen d, n)
          | inr (t, n) ↦ ground (arith, seen d, n, old d t n)
        ],
        (ground (arith, done), fetched, upserted),
      )

module _ (C : Cloud) (ctx_err : ℕ → Bool) (ts : ℕ)
    (accepts : (rows : List NrdRow) (s : C.State) → is_accepted (C.post_rows rows s).1 ≡ true)
    (goes_on : (n : ℕ) → ctx_err n ≡ false) where
  nrd_lines-stopped :
      (lines : List Bytes) (l : Loop C)
      → l.stopped ≡ none
      → (nrd_lines C ctx_err ts lines l).stopped ≡ none
  unfolding nrd_lines nrd_line flush_full nrd_upsert_batch
  nrd_lines-stopped [] l e = e
  nrd_lines-stopped (d ∷ lines) l e = nrd_lines-stopped lines (nrd_line C ctx_err ts d l) (
      ground
        (arith, e, accepts (map (nrd_row ts) (l.batch ++ d ∷ [])) l.cloud, goes_on (suc l.fetched)))

  -- Where the cloud takes every request and the feed is read to its end, an ingest returns no error.
  pub ingest_nrd_once-completes :
      (unicode_lower trim_space : Bytes → Bytes) (scan_int : Bytes → Option ℕ) (hash : Bytes)
      (run_id modified : Bytes) (lines : List Bytes) (s : C.State)
      → ((s : C.State) → is_some (pruned_rows (C.delete_before ts s).1) ≡ true)
      → (ingest C unicode_lower trim_space scan_int ctx_err hash ts
          (some run_id)
          (feed 200 modified lines false)
          s).is_ok
        ≡ true
  unfolding ingest_nrd_once nrd_run_inner finish_run nrd_upsert_batch
  ingest_nrd_once-completes unicode_lower trim_space scan_int hash run_id modified lines s deletes =
      let start : Loop C = record {
        batch = [];
        fetched = 0;
        upserted = 0;
        cloud = s;
        stopped = none;
      } in
      let domains = map (normalize_nrd_line unicode_lower trim_space) lines in
      let l = nrd_lines C ctx_err ts domains start in
      let rows = map (nrd_row ts) l.batch in
      ground (
        arith,
        nrd_lines-stopped domains start refl,
        accepts rows l.cloud,
        deletes (C.post_rows rows l.cloud).0,
        deletes l.cloud,
      )
