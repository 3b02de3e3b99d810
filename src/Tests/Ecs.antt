-- ===== src/Tests/Ecs.antt =====
-- internal/dns/ecs_strip.go on a query with a cookie and a client subnet.
use safeswitch_router.Common.{◌≡◌, refl, true, List, [], ◌∷◌, arith, Bytes, bytes}
use safeswitch_router.Dns.Packet.{word, word_bytes, put_word}
use safeswitch_router.Dns.Ecs.{
  skip_name_loop, skip_name, skip_questions, skip_rrs, scan_options, kept_len, kept_bytes, rebuild,
  strip_opt_option, strip_additional, strip_ecs,
}
use safeswitch_router.Dns.Ecs.Options.{Opt}
use safeswitch_router.Dns.Ecs.Messages.{edns_query, IsQueryHeader, strip_ecs-edns_query}
use safeswitch_router.Dns.Wire.Queries.{Asked}

abbrev header : Bytes
header = 0x12 ∷ 0x34 ∷ 1 ∷ 0 ∷ 0 ∷ 1 ∷ 0 ∷ 0 ∷ 0 ∷ 0 ∷ 0 ∷ 1 ∷ []

abbrev asked : Asked
asked = record { labels = bytes "a" ∷ bytes "com" ∷ []; qtype = 1; class = 1 }

-- Class 1232 (the payload size) and a TTL of 0.
abbrev fixed : Bytes
fixed = 4 ∷ 208 ∷ 0 ∷ 0 ∷ 0 ∷ 0 ∷ []

abbrev cookie : Opt
cookie = record { code = 10; value = 1 ∷ 2 ∷ [] }

abbrev subnet : Opt
subnet = record { code = 8; value = 0 ∷ 1 ∷ 24 ∷ 0 ∷ 192 ∷ 0 ∷ 2 ∷ [] }

abbrev options : List Opt
options = cookie ∷ subnet ∷ []

abbrev message : Bytes
message = edns_query header (asked ∷ []) fixed options []

abbrev stripped : Bytes
stripped = edns_query header (asked ∷ []) fixed (cookie ∷ []) []

strip_ecs_run : strip_ecs message ≡ (stripped, true)
unfolding strip_ecs skip_questions skip_rrs skip_name skip_name_loop strip_additional
    strip_opt_option scan_options rebuild kept_len kept_bytes word word_bytes put_word
strip_ecs_run = refl

header-IsQueryHeader : IsQueryHeader header (asked ∷ [])
unfolding word
header-IsQueryHeader = omega arith

strip_ecs-edns_query_example : strip_ecs message ≡ (stripped, true)
strip_ecs-edns_query_example =
    strip_ecs-edns_query header (asked ∷ []) fixed options [] header-IsQueryHeader (omega arith)
      refl (omega arith) (unfold word_bytes in omega arith)
