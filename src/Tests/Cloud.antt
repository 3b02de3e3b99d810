-- ===== src/Tests/Cloud.antt =====
-- internal/controlsync against a cloud of a few rows.
use safeswitch_router.Common.{
  ℕ, zero, suc, ◌≡◌, ◌⊎◌, refl, Bool, true, false, Option, none, some, List, [], ◌∷◌, arith, Bytes,
  bytes, length, same,
}
use safeswitch_router.Common.Dict.{lookup, insert, is_some}
use safeswitch_router.Common.Text.{
  to_lower, lower_byte, is_ascii, trim_suffix, has_suffix, has_prefix,
}
use safeswitch_router.Dns.Blocklist.{new_blocklist, load, is_blocked, normalize, QueryResult}
use safeswitch_router.Controlsync.Client.{
  Client, Request, HttpAnswer, no_answer, answered, Reply, ReqOpts, auth_anon, do_with_retry,
  request,
}
use safeswitch_router.Controlsync.Client.Retries.{Ends, do_with_retry-Ends}
use safeswitch_router.Controlsync.Tables.{Statements, insert_or_ignore, delete_where}
use safeswitch_router.Controlsync.Blocklists.{
  ThreatFeedRow, Db, clean_domain, clean_category, hash_pairs, hash_rows, blocked_row, insert_rows,
  apply_blocklist_source, sync_blocklist_source, source_threat_feeds,
}
use safeswitch_router.Controlsync.Blocklists.Syncs.{
  IsReplaced, IsRefused, feed_of, hash, sync, sync_blocklist_source-IsReplaced,
}
use safeswitch_router.Controlsync.Blocklists.Served.{table_rows, sync_blocklist_source-is_blocked}
use safeswitch_router.Controlsync.Nrd.{
  Feed, feed, normalize_nrd_line, nrd_line, nrd_lines, flush_full, nrd_upsert_batch, finish_run,
  nrd_run_inner, nrd_finalize_run, ingest_nrd_once,
}
use safeswitch_router.Controlsync.Nrd.Requests.{Cloud, IsLawful, nrd_row, seen_in, not_before}
use safeswitch_router.Controlsync.Nrd.Batches.{mem}
use safeswitch_router.Controlsync.Nrd.Ingests.{
  listed_domains, ingest, IsCounted, ingest_nrd_once-IsMirror,
}

abbrev id_bytes : Bytes → Bytes
id_bytes s = s

abbrev sort_strings : List Bytes → List Bytes
sort_strings ss = ss

abbrev reply_of : Bytes → Reply
reply_of body = record { body = body; status = 200; headers = none }

abbrev all_succeed : Statements
all_succeed = record {
  begins = true;
  deletes = true;
  prepares = true;
  inserts = λ d. true;
  writes_hash = true;
  commits = true;
}

-- The second of the four attempts is answered.
abbrev send : ℕ → Request → HttpAnswer
send zero r = no_answer
send (suc i) r = answered 200 (bytes "ok") []

abbrev client : Client
client = record {
  base_url = bytes "https://cloud";
  node_token = bytes "t";
  anon_key = bytes "a";
  service_role_key = bytes "s";
}

abbrev opts : ReqOpts
opts = record { auth = auth_anon; extra_headers = []; want_resp_hdrs = false }

do_with_retry-Ends_example :
    Ends
      (λ i. send i (request client (bytes "GET") (bytes "/x") none opts))
      (λ i. false)
      opts.want_resp_hdrs
      0
      4
      (do_with_retry send (λ i. false) client (bytes "GET") (bytes "/x") none opts)
      (do_with_retry send (λ i. false) client (bytes "GET") (bytes "/x") none opts).reply
do_with_retry-Ends_example =
    do_with_retry-Ends send (λ i. false) client (bytes "GET") (bytes "/x") none opts

-- A feed with one row, whose domain is the body.
abbrev decode : Bytes → Option (List ThreatFeedRow)
decode body = some (record { domain = body; category = bytes "Scam" } ∷ [])

-- A row of another source.
abbrev db : Db
db = record {
  tunnel_config = [];
  dns_blocklist =
      (bytes "b.com", record { category = bytes "ads"; source = bytes "safeswitch" }) ∷ [];
}

abbrev synced : Db × Bool
synced =
    sync id_bytes id_bytes source_threat_feeds (bytes "malware") sort_strings id_bytes decode
      all_succeed (some (reply_of (bytes "A.com."))) db

sync_blocklist_source-IsReplaced_example :
    ((synced.0 ≡ db)
      × IsRefused id_bytes id_bytes source_threat_feeds
          (bytes "malware")
          sort_strings
          id_bytes
          decode
          all_succeed
          (some (reply_of (bytes "A.com.")))
          db)
    ⊎ ((rows : List ThreatFeedRow) × (feed_of id_bytes id_bytes source_threat_feeds
            (bytes "malware")
            sort_strings
            id_bytes
            decode
            (some (reply_of (bytes "A.com.")))
          ≡ some rows)
        × IsReplaced id_bytes id_bytes source_threat_feeds
            (bytes "malware")
            rows
            (hash id_bytes id_bytes source_threat_feeds
              (bytes "malware")
              sort_strings
              id_bytes
              decode
              rows)
            db
            synced.0
        × (synced.1 ≡ true))
unfolding lookup
sync_blocklist_source-IsReplaced_example =
    sync_blocklist_source-IsReplaced id_bytes id_bytes source_threat_feeds (bytes "malware")
      sort_strings id_bytes decode all_succeed (some (reply_of (bytes "A.com."))) db refl

sync_blocklist_source-is_blocked_example :
    is_blocked id_bytes
      (load id_bytes
        (QueryResult.fetched (table_rows synced.0.dns_blocklist) false)
        new_blocklist).0
      (bytes "a.com")
    ≡ true
unfolding lookup insert same to_lower lower_byte is_ascii trim_suffix has_suffix clean_domain
    clean_category hash_pairs hash_rows blocked_row insert_rows apply_blocklist_source
    sync_blocklist_source insert_or_ignore delete_where normalize
sync_blocklist_source-is_blocked_example =
    sync_blocklist_source-is_blocked id_bytes id_bytes source_threat_feeds (bytes "malware")
      sort_strings id_bytes decode all_succeed (some (reply_of (bytes "A.com."))) db (bytes "a.com")
      new_blocklist (record { domain = bytes "A.com."; category = bytes "Scam" } ∷ []) refl refl
      refl refl (omega arith)

-- The table as a function, which takes every request.
abbrev cloud : Cloud
cloud = record {
  State = Bytes → Option ℕ;
  post_rows = λ rows s. (λ d. seen_in d rows (s d), some 201);
  delete_before = λ ts s. (λ d. not_before ts (s d), some (204, bytes "*/0"));
  last_seen = λ s d. s d;
}

cloud-IsLawful : IsLawful cloud
cloud-IsLawful = record { last_seen-post = λ rows s d e. refl; last_seen-delete = λ ts s d e. refl }

-- Each domain was seen at time 3; a comment and a domain in capitals come in at time 7.
abbrev two_lines : Feed
two_lines = feed 200 [] (bytes "# nrd" ∷ bytes "New.com" ∷ []) false

ingest_nrd_once-IsMirror_example :
    ((d : Bytes)
      → is_some (
          cloud.last_seen
            (ingest cloud id_bytes id_bytes
              (λ s. none)
              (λ n. false)
              []
              7
              (some (bytes "r"))
              two_lines
              (λ d. some 3)).cloud
            d)
        ≡ mem d (listed_domains cloud id_bytes id_bytes (λ s. none) (λ n. false) [] 7 two_lines))
    × IsCounted cloud id_bytes id_bytes
        (λ s. none)
        (λ n. false)
        []
        7
        (length (listed_domains cloud id_bytes id_bytes (λ s. none) (λ n. false) [] 7 two_lines))
        (ingest cloud id_bytes id_bytes
          (λ s. none)
          (λ n. false)
          []
          7
          (some (bytes "r"))
          two_lines
          (λ d. some 3)).audit
unfolding ingest_nrd_once nrd_run_inner finish_run nrd_lines nrd_line flush_full nrd_upsert_batch
    nrd_finalize_run normalize_nrd_line has_prefix to_lower lower_byte is_ascii nrd_row
ingest_nrd_once-IsMirror_example =
    ingest_nrd_once-IsMirror cloud id_bytes id_bytes (λ s. none) (λ n. false) [] 7
      (some (bytes "r")) two_lines (λ d. some 3) cloud-IsLawful (λ d t e. ground (arith, e)) refl
