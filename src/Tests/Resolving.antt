-- ===== src/Tests/Resolving.antt =====
-- internal/dns/resolver.go on the query for a.com, with a blocklist that holds com.
use safeswitch_router.Common.{
  ◌+◌, ◌≡◌, ◌⊎◌, refl, true, false, Option, none, some, List, [], ◌∷◌, arith, Bytes, bytes, length,
  same, if◌then◌else◌,
}
use safeswitch_router.Common.Text.{to_lower, trim_suffix, join}
use safeswitch_router.Dns.Packet.{word}
use safeswitch_router.Dns.Segments.{At}
use safeswitch_router.Dns.Wire.{ok, parse_query}
use safeswitch_router.Dns.Wire.Names.{wire_name}
use safeswitch_router.Dns.Wire.Responses.{reply_flags}
use safeswitch_router.Dns.Wire.Sinkhole.{answer_record}
use safeswitch_router.Dns.Blocklist.{
  Blocklist, fetched, load, new_blocklist, category_for, normalize,
}
use safeswitch_router.Dns.Resolver.{PolicyReader, resolve, sinkhole_ip}
use safeswitch_router.Dns.Resolver.Decisions.{loaded_resolver, resolve_listed}
use safeswitch_router.Dns.Resolver.Answers.{
  Holds, Forwards, outcome, events_for, holds, resolve-answers,
}
use safeswitch_router.Tests.Wire.{query, labels, labels-IsLabel, question, parsed, parse_query_run}

abbrev unicode : Bytes → Bytes
unicode s = s

abbrev src : Bytes
src = bytes "10.10.0.7"

-- The first upstream is silent.
abbrev exchange : Bytes → Bytes → Option Bytes
exchange upstream q = if same upstream (bytes "8.8.8.8:53") then some (1 ∷ 2 ∷ []) else none

abbrev policy : PolicyReader
policy = record {
  internet_paused_for_ip = λ ip. false;
  blocked_categories_for_ip = λ ip. bytes "adult" ∷ [];
}

abbrev rows : List (Option (Bytes × Bytes))
rows = some (bytes "com", bytes "malware") ∷ []

abbrev loaded : Blocklist
loaded = (load unicode (fetched rows false) new_blocklist).0

resolve-answers_example :
    ((holds unicode exchange 5 loaded (some policy) query src question ≡ true)
      × Holds 5 query question labels
          (events_for unicode exchange 5 loaded (some policy) query src question)
          (outcome unicode exchange 5 loaded (some policy) query src))
    ⊎ ((holds unicode exchange 5 loaded (some policy) query src question ≡ false)
        × Forwards exchange query (outcome unicode exchange 5 loaded (some policy) query src))
unfolding join
resolve-answers_example =
    resolve-answers unicode exchange 5 loaded (some policy) query src parsed question [] labels
      (omega arith) parse_query_run refl labels-IsLabel (omega arith) refl (omega arith)

resolve_listed_example :
    (answer : Bytes) × (resolve unicode exchange 5
        (loaded_resolver unicode rows new_blocklist (some policy) [])
        query
        src
      ≡ ok (
        answer,
        record {
          domain = bytes "a.com";
          src_ip = src;
          category =
              category_for unicode
                (load unicode (fetched rows false) new_blocklist).0
                (bytes "a.com");
        }
            ∷ [],
      ))
    × (parse_query 5 answer
        ≡ ok (record {
          id = word query 0;
          flags = reply_flags (word query 2) 0;
          qd_count = 1;
          questions = record { name = bytes "a.com"; qtype = 1; class = 1 } ∷ [];
          body = answer;
        }))
    × (word answer 6 ≡ 1)
    × At answer (12 + length (wire_name labels) + 4) (answer_record sinkhole_ip)
unfolding join normalize to_lower trim_suffix same
resolve_listed_example =
    resolve_listed unicode exchange 5 rows new_blocklist (some policy) [] query src parsed question
      [] labels (omega arith) parse_query_run refl refl labels-IsLabel (omega arith) refl
      (omega arith) refl refl
