-- ===== src/Tests/Wire.antt =====
-- internal/dns/wire.go on a query for a.com and on one with a pointer loop.
use safeswitch_router.Common.{
  ℕ, ◌+◌, ◌<◌, ◌≡◌, ◌≢◌, refl, List, [], ◌∷◌, map, arith, Bytes, bytes, length, All,
}
use safeswitch_router.Common.Text.{join}
use safeswitch_router.Dns.Packet.{word, word_bytes, byte_at, All-byte_at}
use safeswitch_router.Dns.Segments.{At}
use safeswitch_router.Dns.Wire.{
  ok, stuck, Question, Msg, read_name_loop, read_name, parse_questions, parse_query,
  build_sinkhole_a,
}
use safeswitch_router.Dns.Wire.Names.{IsLabel, wire_name}
use safeswitch_router.Dns.Wire.Queries.{
  Asked, IsAsked, read_question, parse_query-wire, parse_query-cycle, parse_query-ne-stuck,
}
use safeswitch_router.Dns.Wire.Responses.{reply_flags}
use safeswitch_router.Dns.Wire.Sinkhole.{answer_record, build_sinkhole_a-answers}

-- Id 0x1234, recursion desired, one question: a.com, type A, class IN.
abbrev pub query : Bytes
query =
    0x12 ∷ 0x34 ∷ 1 ∷ 0 ∷ 0 ∷ 1 ∷ 0 ∷ 0 ∷ 0 ∷ 0 ∷ 0 ∷ 0 ∷ 1 ∷ b'a' ∷ 3 ∷ b'c' ∷ b'o' ∷ b'm' ∷ 0 ∷ 0
    ∷ 1 ∷ 0 ∷ 1 ∷ []

abbrev pub labels : List Bytes
labels = bytes "a" ∷ bytes "com" ∷ []

pub labels-IsLabel : All IsLabel labels
labels-IsLabel = omega arith

-- The question's name is a pointer to itself.
abbrev pub looping : Bytes
looping = 0x12 ∷ 0x34 ∷ 1 ∷ 0 ∷ 0 ∷ 1 ∷ 0 ∷ 0 ∷ 0 ∷ 0 ∷ 0 ∷ 0 ∷ 192 ∷ 12 ∷ []

pub read_name_run : read_name 5 query 12 ≡ ok (bytes "a.com", 7)
unfolding read_name read_name_loop join
read_name_run = refl

abbrev pub question : Question
question = record { name = bytes "a.com"; qtype = 1; class = 1 }

abbrev pub parsed : Msg
parsed = record { id = 0x1234; flags = 256; qd_count = 1; questions = question ∷ []; body = query }

pub parse_query_run : parse_query 5 query ≡ ok parsed
unfolding parse_query parse_questions read_name read_name_loop join word
parse_query_run = refl

abbrev asked : Asked
asked = record { labels = labels; qtype = 1; class = 1 }

asked-IsAsked : All IsAsked (asked ∷ [])
asked-IsAsked = omega arith

parse_query-wire_example :
    parse_query 5 query
    ≡ ok (record {
      id = word query 0;
      flags = word query 2;
      qd_count = 1;
      questions = map read_question (asked ∷ []);
      body = query;
    })
unfolding word word_bytes
parse_query-wire_example =
    parse_query-wire (asked ∷ []) 5 query asked-IsAsked (omega arith) refl
      (0x12 ∷ 0x34 ∷ 1 ∷ 0 ∷ 0 ∷ 1 ∷ 0 ∷ 0 ∷ 0 ∷ 0 ∷ 0 ∷ 0 ∷ [], [], refl, refl)

abbrev pub header : Bytes
header = 0x12 ∷ 0x34 ∷ 1 ∷ 0 ∷ 0 ∷ 1 ∷ 0 ∷ 0 ∷ 0 ∷ 0 ∷ 0 ∷ 0 ∷ []

parse_query-cycle_example : parse_query 1000 looping ≡ stuck
unfolding word
parse_query-cycle_example =
    parse_query-cycle [] 1000 looping tt (omega arith) (header, [], refl, refl)

-- The bytes of `query` stay below 192.
query-NoPointers : (i : ℕ) → byte_at query i < 192
query-NoPointers i = All-byte_at 192 query i (omega arith) (omega arith)

parse_query-ne-stuck_example : parse_query 12 query ≢ stuck
parse_query-ne-stuck_example =
    parse_query-ne-stuck 12 query (λ i h. query-NoPointers i) (omega arith) (omega arith)

abbrev address : Bytes
address = 10 ∷ 10 ∷ 0 ∷ 254 ∷ []

build_sinkhole_a-answers_example :
    (r : Bytes) × (build_sinkhole_a 5 query address ≡ ok r)
    × (parse_query 5 r
        ≡ ok (record {
          id = word query 0;
          flags = reply_flags (word query 2) 0;
          qd_count = 1;
          questions = record { name = bytes "a.com"; qtype = 1; class = 1 } ∷ [];
          body = r;
        }))
    × (word r 6 ≡ 1)
    × At r (12 + length (wire_name labels) + 4) (answer_record address)
unfolding join
build_sinkhole_a-answers_example =
    build_sinkhole_a-answers query address parsed question [] labels 5 (omega arith) parse_query_run
      refl labels-IsLabel (omega arith) refl (omega arith)
