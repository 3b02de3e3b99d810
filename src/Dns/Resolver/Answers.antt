-- ===== src/Dns/Resolver/Answers.antt =====
-- What a client of `Resolve` of internal/dns/resolver.go receives, read back from its bytes.
use safeswitch_router.Common.{
  ℕ, ◌+◌, ◌*◌, ◌/◌, ◌%◌, ◌<◌, ◌≤◌, ◌≡◌, ◌≢◌, ◌∙◌, Bool, true, false, Option, none, some, List, [],
  ◌∷◌, arith, Bytes, bytes, IsByte, All, length, drop, ◌==◌, if◌then◌else◌, ◌⊎◌, inl, inr,
  Bool-cases, Option-cases,
}
use safeswitch_router.Common.Text.{join}
use safeswitch_router.Dns.Packet.{word}
use safeswitch_router.Dns.Segments.{At}
use safeswitch_router.Dns.Wire.{
  Result, ok, Question, Msg, parse_query, build_nxdomain, build_servfail,
}
use safeswitch_router.Dns.Wire.Names.{IsLabel, wire_name}
use safeswitch_router.Dns.Wire.Encoding.{NoDot}
use safeswitch_router.Dns.Wire.Queries.{parse_query-counts}
use safeswitch_router.Dns.Wire.Responses.{
  HasHeader, reply_flags, build_nxdomain-header, build_servfail-header,
}
use safeswitch_router.Dns.Wire.Sinkhole.{answer_record, build_sinkhole_a-answers}
use safeswitch_router.Dns.Blocklist.{Blocklist, category_for}
use safeswitch_router.Dns.Resolver.{
  BlockEvent, PolicyReader, is_paused, with_events, sinkhole, sinkhole_ip, new_resolver, pass,
  block_event, resolve,
}
use safeswitch_router.Dns.Resolver.Decisions.{is_held, resolve_decides, pass-new_resolver}

-- An answer with one record, 10.10.0.254, for the query's first question.
abbrev pub IsSinkholed : ℕ → Bytes → Question → List Bytes → Bytes → Type 0
IsSinkholed fuel query q ls answer =
    (parse_query fuel answer
      ≡ ok (record {
        id = word query 0;
        flags = reply_flags (word query 2) 0;
        qd_count = 1;
        questions = record { name = q.name; qtype = 1; class = 1 } ∷ [];
        body = answer;
      }))
    × (word answer 6 ≡ 1)
    × At answer (12 + length (wire_name ls) + 4) (answer_record (10 ∷ 10 ∷ 0 ∷ 254 ∷ []))

-- An NXDOMAIN with no records and all of the query behind the header. Bits of the query's own response
-- code stay, as in `build_nxdomain-header`.
abbrev pub IsNxdomain : Bytes → Bytes → Type 0
IsNxdomain query answer =
    HasHeader answer (word query 0) (reply_flags (word query 2) (word query 2 % 16 / 4 * 4 + 3))
      (word query 4) 0 0 0
    × (drop 12 answer ≡ drop 12 query)

-- The query is held back: the client gets the sinkhole's address if it asks for an address, and
-- NXDOMAIN if not; these are the events.
abbrev pub Holds :
    ℕ → Bytes → Question → List Bytes → List BlockEvent → Result (Bytes × List BlockEvent) → Type 0
Holds fuel query q ls events o =
    (answer : Bytes) × (o ≡ ok (answer, events))
    × (((q.qtype ≡ 1) × IsSinkholed fuel query q ls answer)
        ⊎ ((q.qtype ≢ 1) × IsNxdomain query answer))

-- The query is passed on, with no event: the client gets the bytes of the first of the two upstreams
-- that answers, and a SERVFAIL of twelve bytes if both fail.
abbrev pub Forwards :
    (Bytes → Bytes → Option Bytes) → Bytes → Result (Bytes × List BlockEvent) → Type 0
Forwards forward_once query o =
    (answer : Bytes) × (o ≡ ok (answer, []))
    × ((forward_once (bytes "1.1.1.1:53") query ≡ some answer)
        ⊎ ((forward_once (bytes "1.1.1.1:53") query ≡ none)
            × ((forward_once (bytes "8.8.8.8:53") query ≡ some answer)
                ⊎ ((forward_once (bytes "8.8.8.8:53") query ≡ none)
                    × HasHeader answer (word query 0) (32768 + word query 2 % 32768 / 16 * 16 + 2) 0
                        0 0 0
                    × (length answer ≡ 12)))))

module _ (unicode_lower : Bytes → Bytes) (forward_once : Bytes → Bytes → Option Bytes) (fuel : ℕ)
    (bl : Blocklist) (policy : Option PolicyReader) (query src_ip : Bytes) where
  abbrev pub outcome : Result (Bytes × List BlockEvent)
  outcome = resolve unicode_lower forward_once fuel (new_resolver bl policy) query src_ip

  abbrev pub event_for : Question → BlockEvent
  event_for q = record {
    domain = q.name;
    src_ip = src_ip;
    category = category_for unicode_lower bl q.name;
  }

  abbrev pub events_for : Question → List BlockEvent
  events_for q = if is_paused policy src_ip then [] else event_for q ∷ []

  abbrev pub holds : Question → Bool
  holds = is_held unicode_lower forward_once fuel (new_resolver bl policy) query src_ip

  pass-Forwards :
      All IsByte query
      → 12 ≤ length query
      → Forwards forward_once query (pass forward_once (new_resolver bl policy) query)
  pass-Forwards v size =
      let passed = pass-new_resolver forward_once bl policy query in
      elim (Option-cases (forward_once (bytes "1.1.1.1:53") query)) [
        | inr (a, e) ↦ (a, ground (arith, passed, e), inl e)
        | inl e ↦ elim (Option-cases (forward_once (bytes "8.8.8.8:53") query)) [
          | inr (a, f) ↦ (a, ground (arith, passed, e, f), inr (e, inl f))
          | inl f ↦
              let (header, long) = build_servfail-header query size v in
              (build_servfail query, ground (arith, passed, e, f), inr (e, inr (f, header, long)))
        ]
      ]

  module _ (m : Msg) (q : Question) (qs : List Question) (ls : List Bytes) (bs : All IsByte query)
      (parsed : parse_query fuel query ≡ ok m) (first : m.questions ≡ q ∷ qs) (lv : All IsLabel ls)
      (nd : All NoDot ls) (name : q.name ≡ join (bytes ".") ls) (enough : length ls < fuel) where
    query_size : 12 ≤ length query
    query_size = omega (arith, (parse_query-counts fuel query m parsed).1)

    sinkhole-Holds :
        (events : List BlockEvent)
        → Holds fuel query q ls events (with_events events (sinkhole fuel query q))
    unfolding sinkhole
    sinkhole-Holds events = elim (Bool-cases (q.qtype == 1)) [
      | inl a ↦
          let (answer, built, again, one, at) =
            build_sinkhole_a-answers query sinkhole_ip m q qs ls fuel bs parsed first lv nd name
              enough in
          (answer, ground (arith, a, built), inl (ground (arith, a), (again, one, at)))
      | inr a ↦
          let (header, rest, _, _) = build_nxdomain-header query query_size bs in
          (
            build_nxdomain query,
            ground (arith, a),
            inr (λ e. absurd (ground (arith, a, e)), (header, rest)),
          )
    ]

    -- The whole answer to a query that parses with a question whose name has labels without dots.
    -- If the device is paused, or the first question's domain is blocked for all or in one of the
    -- device's categories, the client gets the sinkhole's address for a question of type A and
    -- NXDOMAIN for any other; one event with the name, the device and the category is recorded
    -- unless the device is paused. Else there is no event, and the client gets the bytes of the first
    -- of the two upstreams that answers, or SERVFAIL if both fail.
    pub resolve-answers :
        ((holds q ≡ true) × Holds fuel query q ls (events_for q) outcome)
        ⊎ ((holds q ≡ false) × Forwards forward_once query outcome)
    unfolding block_event new_resolver
    resolve-answers =
        let decided =
          resolve_decides unicode_lower forward_once fuel (new_resolver bl policy) query src_ip m q
            qs parsed first in
        elim (Bool-cases (holds q)) [
          | inl h ↦
              let (answer, e, how) = sinkhole-Holds (events_for q) in
              inl (h, (answer, decided ∙ ground (arith, h, e), how))
          | inr h ↦
              let (answer, e, how) = pass-Forwards bs query_size in
              inr (h, (answer, decided ∙ ground (arith, h, e), how))
        ]
