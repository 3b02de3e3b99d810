-- ===== src/Dns/Wire/Sinkhole.antt =====
-- The A record that `buildSinkholeA` of internal/dns/wire.go answers with, read back by the parser.
use safeswitch_router.Common.{
  ℕ, ◌+◌, ◌<◌, ◌≤◌, ◌≡◌, refl, sym, ap, ◌∙◌, List, [], ◌∷◌, ◌++◌, arith, Bytes, bytes, IsByte, All,
  length, take, length-append, append_assoc, append-nil,
}
use safeswitch_router.Common.Text.{join}
use safeswitch_router.Dns.Packet.{word, word_bytes, word-lt}
use safeswitch_router.Dns.Segments.{At}
use safeswitch_router.Dns.Wire.{
  ok, Question, Msg, parse_query, sinkhole_header, sinkhole_answer, sinkhole_reply,
  build_sinkhole_a, encode_name,
}
use safeswitch_router.Dns.Wire.Names.{IsLabel, wire_labels, wire_name, wire_pointer}
use safeswitch_router.Dns.Wire.Queries.{
  Asked, IsAsked, wire_question, wire_questions, length-wire_question, parse_query-wire,
  parse_query-counts,
}
use safeswitch_router.Dns.Wire.Encoding.{NoDot, encode_name-join}
use safeswitch_router.Dns.Wire.Responses.{
  HasHeader, reply_flags, sinkhole_flags, sinkhole_header_lem,
}

-- The record that answers: the name by a pointer to the question, type A, class IN, five seconds
-- to live, and the address.
abbrev pub answer_record : Bytes → Bytes
answer_record ip = wire_pointer 12 ++ (0 ∷ 1 ∷ 0 ∷ 1 ∷ 0 ∷ 0 ∷ 0 ∷ 5 ∷ 0 ∷ 4 ∷ take 4 ip)

header_layout :
    (q : Bytes) (flags : ℕ) (hdr rest : Bytes)
    → 12 ≤ length q
    → flags < 65536
    → hdr ≡ take 2 q ++ (word_bytes flags ++ (0 ∷ 1 ∷ 0 ∷ 1 ∷ 0 ∷ 0 ∷ 0 ∷ 0 ∷ []))
    → HasHeader (hdr ++ rest) (word q 0) flags 1 1 0 0 × (length hdr ≡ 12)
unfolding word word_bytes
header_layout (a ∷ b ∷ c ∷ d ∷ e ∷ f ∷ g ∷ i ∷ j ∷ k ∷ l ∷ m ∷ q) flags hdr rest h v x =
    rw x ((refl, omega arith, refl, refl, refl, refl), refl)
header_layout _ flags hdr rest h v x = absurd (omega arith)

-- Type A, class IN.
abbrev asked_a : List Bytes → Asked
asked_a ls = record { labels = ls; qtype = 1; class = 1 }

reply_layout :
    (query ip : Bytes) (q : Question) (ls : List Bytes)
    → encode_name q.name ≡ wire_labels ls
    → sinkhole_reply query ip q
      ≡ sinkhole_header query ++ (wire_questions (asked_a ls ∷ []) ++ answer_record ip)
unfolding sinkhole_reply sinkhole_answer word_bytes
reply_layout query ip q ls e = rw e (ap (◌++◌ (sinkhole_header query)) (simp append_assoc))

pub sinkhole_reply-parse :
    (query ip : Bytes) (q : Question) (ls : List Bytes) (fuel : ℕ)
    → 12 ≤ length query
    → All IsByte query
    → All IsLabel ls
    → All NoDot ls
    → q.name ≡ join (bytes ".") ls
    → length ls < fuel
    → (parse_query fuel (sinkhole_reply query ip q)
        ≡ ok (record {
          id = word query 0;
          flags = reply_flags (word query 2) 0;
          qd_count = 1;
          questions = record { name = q.name; qtype = 1; class = 1 } ∷ [];
          body = sinkhole_reply query ip q;
        }))
      × (word (sinkhole_reply query ip q) 6 ≡ 1)
      × At (sinkhole_reply query ip q) (12 + length (wire_name ls) + 4) (answer_record ip)
sinkhole_reply-parse query ip q ls fuel h v lv nd name enough =
    let asked : List Asked = asked_a ls ∷ [] in
    let r : Bytes = sinkhole_reply query ip q in
    let hdr : Bytes = sinkhole_header query in
    let flags : ℕ = reply_flags (word query 2) 0 in
    let shape : r ≡ hdr ++ (wire_questions asked ++ answer_record ip) =
      reply_layout query ip q ls (ap encode_name name ∙ encode_name-join ls lv nd) in
    let low : word query 2 < 65536 = word-lt query 2 v in
    let (words, size) =
      header_layout query flags hdr (wire_questions asked ++ answer_record ip) h (omega arith)
        (rw (sinkhole_flags (word query 2) low) at (sinkhole_header_lem query h)) in
    let behind : At r 12 (wire_questions asked) = (hdr, answer_record ip, shape, size) in
    let count : word r 4 ≡ 1 = ap (λ b. word b 4) shape ∙ words.2 in
    let id : word r 0 ≡ word query 0 = ap (λ b. word b 0) shape ∙ words.0 in
    let flagged : word r 2 ≡ flags = ap (λ b. word b 2) shape ∙ words.1 in
    let fits : IsAsked (asked_a ls) = record {
      labels_fit = lv;
      qtype_fits = omega arith;
      class_fits = omega arith;
    } in
    let parsed = parse_query-wire asked fuel r (fits, tt) (enough, tt) count behind in
    let width : length (wire_questions asked) ≡ length (wire_name ls) + 4 =
      omega
        (arith, length-append (wire_question (asked_a ls)) [], length-wire_question (asked_a ls)) in
    let end : r ≡ hdr ++ wire_questions asked ++ (answer_record ip ++ []) =
      shape ∙ simp (append_assoc, append-nil) in
    (
      cc (parsed, id, flagged, sym name),
      ap (λ b. word b 6) shape ∙ words.3,
      (
        hdr ++ wire_questions asked,
        [],
        end,
        length-append hdr (wire_questions asked) ∙ omega arith,
      ),
    )

-- The sinkhole's answer to any query that parses with a question whose name, `ls`, has labels
-- without dots: it is a response with the query's id and response code 0, its one question is the
-- query's name with type A, and the one answer behind it holds the sinkhole's address.
pub build_sinkhole_a-answers :
    (query ip : Bytes) (m : Msg) (q : Question) (qs : List Question) (ls : List Bytes) (fuel : ℕ)
    → All IsByte query
    → parse_query fuel query ≡ ok m
    → m.questions ≡ q ∷ qs
    → All IsLabel ls
    → All NoDot ls
    → q.name ≡ join (bytes ".") ls
    → length ls < fuel
    → (r : Bytes) × (build_sinkhole_a fuel query ip ≡ ok r)
      × (parse_query fuel r
          ≡ ok (record {
            id = word query 0;
            flags = reply_flags (word query 2) 0;
            qd_count = 1;
            questions = record { name = q.name; qtype = 1; class = 1 } ∷ [];
            body = r;
          }))
      × (word r 6 ≡ 1)
      × At r (12 + length (wire_name ls) + 4) (answer_record ip)
unfolding build_sinkhole_a
build_sinkhole_a-answers query ip m q qs ls fuel v e first lv nd name enough =
    let size : 12 ≤ length query = omega (arith, (parse_query-counts fuel query m e).1) in
    let (parsed, one, at) = sinkhole_reply-parse query ip q ls fuel size v lv nd name enough in
    (sinkhole_reply query ip q, ground (arith, e, first, size), parsed, one, at)
