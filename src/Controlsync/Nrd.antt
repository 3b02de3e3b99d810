-- ===== src/Controlsync/Nrd.antt =====
-- internal/controlsync/nrdsync.go: the daily ingest of newly-registered domains into the cloud's table.
-- The lines that the scanner gives of the feed, the hash of what was read, the ends of the context,
-- Go's `strings.TrimSpace`, `fmt.Sscanf` and Unicode's lower-casing are parameters. Times are numbers.
pub mod Requests
pub mod Batches
pub mod Ingests
pub mod Mirror
pub mod Paging
pub mod Served
use safeswitch_router.Common.{
  ℕ, suc, ◌+◌, ◌-◌, ◌≡◌, ◌<◌, Bool, true, false, not, ◌&&◌, ◌||◌, Option, none, some, List, [], ◌∷◌,
  ◌++◌, map, Bytes, bytes, length, drop, any, leb, ltb, same, ◌==◌, if◌then◌else◌,
}
use safeswitch_router.Common.Dict.{is_some}
use safeswitch_router.Common.Text.{to_lower, has_prefix}
use safeswitch_router.Controlsync.Client.{Reply}
use safeswitch_router.Controlsync.Nrd.Requests.{
  Cloud, nrd_row, is_accepted, pruned_rows, pruned_count,
}

abbrev pub nrd_batch_size : ℕ
nrd_batch_size = 5000

-- `strings.ContainsAny(s, chars)`
abbrev pub contains_any : Bytes → Bytes → Bool
contains_any s chars = any (λ c. any (λ x. x == c) chars) s

-- The empty text skips the line.
unfoldable pub normalize_nrd_line : (Bytes → Bytes) → (Bytes → Bytes) → Bytes → Bytes
normalize_nrd_line unicode_lower trim_space line =
    let s = trim_space line in
    let l = to_lower unicode_lower s in
    if length s == 0 || has_prefix s (bytes "#")
    then []
    else if contains_any l (bytes " \t/?:")
    then []
    else if ltb 253 (length l)
    then []
    else l

pub data RunError : Type 0 where
  fetch_failed : RunError
  feed_status : ℕ → RunError
  upsert_failed : ℕ → RunError
  cancelled : RunError
  scan_failed : RunError
  final_failed : RunError
  prune_failed : RunError

pub record NrdRunResult : Type 0 where
  pub fetched : ℕ
  pub upserted : ℕ
  pub pruned : ℕ
  pub source_hash : Bytes
  pub source_modified : Bytes

-- What the feed's server gives: the status, `Last-Modified`, the lines, and whether the scanner ended
-- in an error.
pub data Feed : Type 0 where
  unreachable : Feed
  feed : ℕ → Bytes → List Bytes → Bool → Feed

-- The key of the new row of the audit, `none` for an error.
unfoldable pub nrd_start_run : (Bytes → Option (List Bytes)) → Option Reply → Option Bytes
nrd_start_run decode none = none
nrd_start_run decode (some reply) =
    if leb 300 reply.status then none else elim (decode reply.body) [
      | none ↦ none
      | some run_ids ↦ elim run_ids [ [] ↦ none | run_id ∷ _ ↦ some run_id ]
    ]

module _ (C : Cloud) where
  -- The variables of the loop over the lines; a return from within it is in `stopped`.
  pub record Loop : Type 0 where
    pub batch : List Bytes
    pub fetched : ℕ
    pub upserted : ℕ
    pub cloud : C.State
    pub stopped : Option RunError

  unfoldable pub nrd_upsert_batch : List Bytes → ℕ → C.State → C.State × Bool
  nrd_upsert_batch domains ts s =
      let o = C.post_rows (map (nrd_row ts) domains) s in (o.0, is_accepted o.1)

  unfoldable pub flush_full : ℕ → Loop → Loop
  flush_full ts l =
      let o = nrd_upsert_batch l.batch ts l.cloud in
      if leb nrd_batch_size (length l.batch)
      then (if o.1
          then record l { batch = []; upserted = l.upserted + length l.batch; cloud = o.0 }
          else record l { cloud = o.0; stopped = some (upsert_failed l.fetched) })
      else l

  -- The body of the loop, with the line already normalized.
  unfoldable pub nrd_line : (ℕ → Bool) → ℕ → Bytes → Loop → Loop
  nrd_line ctx_err ts domain l =
      let taken = record l { batch = l.batch ++ domain ∷ []; fetched = suc l.fetched } in
      let flushed = flush_full ts taken in
      if is_some l.stopped || length domain == 0
      then l
      else if not (is_some flushed.stopped) && ctx_err flushed.fetched
      then record flushed { stopped = some cancelled }
      else flushed

  unfoldable pub nrd_lines : (ℕ → Bool) → ℕ → List Bytes → Loop → Loop
  nrd_lines ctx_err ts [] l = l
  nrd_lines ctx_err ts (domain ∷ domains) l =
      nrd_lines ctx_err ts domains (nrd_line ctx_err ts domain l)

  -- The state behind a run, its result, and its error.
  pub record IngestRun : Type 0 where
    pub cloud : C.State
    pub result : NrdRunResult
    pub error : Option RunError

  unfoldable pub finish_run : (Bytes → Option ℕ) → Bytes → Bytes → ℕ → Bool → Loop → IngestRun
  finish_run scan_int modified hash ts scan_fails l =
      let so_far : NrdRunResult = record {
        fetched = l.fetched;
        upserted = l.upserted;
        pruned = 0;
        source_hash = [];
        source_modified = modified;
      } in
      let posts = ltb 0 (length l.batch) in
      let o = nrd_upsert_batch l.batch ts l.cloud in
      let s = if posts then o.0 else l.cloud in
      let hashed = record so_far { upserted = l.upserted + length l.batch; source_hash = hash } in
      let p = C.delete_before ts s in
      elim l.stopped [
        | some e ↦ record { cloud = l.cloud; result = so_far; error = some e }
        | none ↦
            if scan_fails
            then record { cloud = l.cloud; result = so_far; error = some scan_failed }
            else if posts && not o.1
            then record { cloud = s; result = so_far; error = some final_failed }
            else elim (pruned_rows p.1) [
              | none ↦ record { cloud = p.0; result = hashed; error = some prune_failed }
              | some range ↦ record {
                cloud = p.0;
                result = record hashed { pruned = pruned_count scan_int range };
                error = none;
              }
            ]
      ]

  module _ (unicode_lower trim_space : Bytes → Bytes) (scan_int : Bytes → Option ℕ)
      (ctx_err : ℕ → Bool) (hash : Bytes) (ts : ℕ) where
    unfoldable pub nrd_run_inner : Feed → C.State → IngestRun
    nrd_run_inner unreachable s = record {
      cloud = s;
      result = record {
        fetched = 0;
        upserted = 0;
        pruned = 0;
        source_hash = [];
        source_modified = [];
      };
      error = some fetch_failed;
    }
    nrd_run_inner (feed status modified lines scan_fails) s =
        let start : Loop = record {
          batch = [];
          fetched = 0;
          upserted = 0;
          cloud = s;
          stopped = none;
        } in
        let domains = map (normalize_nrd_line unicode_lower trim_space) lines in
        if status == 200
        then finish_run scan_int modified hash ts scan_fails (nrd_lines ctx_err ts domains start)
        else record {
          cloud = s;
          result = record {
            fetched = 0;
            upserted = 0;
            pruned = 0;
            source_hash = [];
            source_modified = [];
          };
          error = some (feed_status status);
        }

    -- The row of `nrd_ingest_runs` as it is finalized: its key, the totals, and the error.
    pub record Audit : Type 0 where
      pub run_id : Bytes
      pub result : NrdRunResult
      pub status : Bytes
      pub error : Option RunError

    pub record Ingest : Type 0 where
      pub cloud : C.State
      pub audit : Option Audit
      pub is_ok : Bool

    -- The body of the PATCH; whether the cloud takes it makes no difference to what is returned.
    unfoldable pub nrd_finalize_run : Bytes → IngestRun → Audit
    nrd_finalize_run run_id run = record {
      run_id = run_id;
      result = run.result;
      status = if is_some run.error then bytes "error" else bytes "ok";
      error = run.error;
    }

    -- `started` is what `nrd_start_run` returned.
    unfoldable pub ingest_nrd_once : Option Bytes → Feed → C.State → Ingest
    ingest_nrd_once none f s = record { cloud = s; audit = none; is_ok = false }
    ingest_nrd_once (some run_id) f s =
        let run = nrd_run_inner f s in
        record {
          cloud = run.cloud;
          audit = some (nrd_finalize_run run_id run);
          is_ok = not (is_some run.error);
        }
