-- ===== src/Dns/Resolver/Decisions.antt =====
-- What `Resolve` of internal/dns/resolver.go decides, and in which order.
use safeswitch_router.Common.{
  ℕ, ◌+◌, ◌<◌, ◌≡◌, refl, ◌∙◌, Bool, true, false, ◌||◌, Option, none, some, List, [], ◌∷◌, ◌++◌,
  arith, Bytes, bytes, IsByte, All, length, any, if◌then◌else◌, ◌⊎◌, inl, inr,
}
use safeswitch_router.Common.Text.{join}
use safeswitch_router.Dns.Packet.{word}
use safeswitch_router.Dns.Segments.{At}
use safeswitch_router.Dns.Wire.{ok, short, stuck, Question, Msg, parse_query, build_servfail}
use safeswitch_router.Dns.Wire.Names.{IsLabel, wire_labels, wire_name, wire_pointer}
use safeswitch_router.Dns.Wire.Encoding.{NoDot}
use safeswitch_router.Dns.Wire.Queries.{parse_query-cycle}
use safeswitch_router.Dns.Wire.Responses.{reply_flags}
use safeswitch_router.Dns.Wire.Sinkhole.{answer_record, build_sinkhole_a-answers}
use safeswitch_router.Dns.Blocklist.{
  Blocklist, fetched, normalize, load, is_blocked, is_blocked_for_categories, category_for,
}
use safeswitch_router.Dns.Blocklist.Loading.{blocked, entries}
use safeswitch_router.Dns.Blocklist.Lookups.{names, is_blocked-load}
use safeswitch_router.Dns.Resolver.{
  PolicyReader, Resolver, is_paused, blocked_categories, with_events, sinkhole, sinkhole_ip,
  new_resolver, forward, pass, block_event, resolve_question, resolve,
}

-- With no categories nothing is blocked for them.
no_categories :
    (unicode_lower : Bytes → Bytes) (b : Blocklist) (domain : Bytes) (cats : List Bytes)
    → length cats ≡ 0
    → is_blocked_for_categories unicode_lower b domain cats ≡ false
unfolding is_blocked_for_categories
no_categories unicode_lower b domain [] h = refl
no_categories unicode_lower b domain (c ∷ cats) h = absurd (omega arith)

module _ (unicode_lower : Bytes → Bytes) (forward_once : Bytes → Bytes → Option Bytes) (fuel : ℕ)
    (r : Resolver) (query src_ip : Bytes) where
  -- Why a question is not passed on.
  abbrev pub is_held : Question → Bool
  is_held q =
      is_paused r.policy src_ip
      || is_blocked unicode_lower r.blocklist q.name
      || is_blocked_for_categories unicode_lower r.blocklist q.name
          (blocked_categories r.policy src_ip)

  -- The whole decision on a query that parses: if the device is paused, or the first question's
  -- domain is blocked for all or in one of the device's categories, the sinkhole answers and no
  -- upstream is asked; an event is recorded unless the device is paused. Every other query is
  -- passed on, with no event.
  pub resolve_decides :
      (m : Msg) (q : Question) (qs : List Question)
      → parse_query fuel query ≡ ok m
      → m.questions ≡ q ∷ qs
      → resolve unicode_lower forward_once fuel r query src_ip ≡ (
          if is_held q
          then with_events
              (if is_paused r.policy src_ip then [] else block_event unicode_lower r q src_ip ∷ [])
              (sinkhole fuel query q)
          else pass forward_once r query)
  unfolding resolve resolve_question
  resolve_decides m q qs parsed first = ground (
    arith,
    parsed,
    first,
    no_categories unicode_lower r.blocklist q.name (blocked_categories r.policy src_ip),
  )

  -- A query that the parser refuses, or with no question, is answered SERVFAIL.
  pub resolve_unreadable :
      (parse_query fuel query ≡ short)
        ⊎ ((m : Msg) × (parse_query fuel query ≡ ok m) × (m.questions ≡ []))
      → resolve unicode_lower forward_once fuel r query src_ip ≡ ok (build_servfail query, [])
  unfolding resolve
  resolve_unreadable (inl e) = ground (arith, e)
  resolve_unreadable (inr (m, e, f)) = ground (arith, e, f)

  -- A query whose first name ends in a pointer to its own first byte is never answered.
  pub resolve-cycle :
      (ls : List Bytes)
      → All IsLabel ls
      → 0 < word query 4
      → At query 12 (wire_labels ls ++ wire_pointer 12)
      → resolve unicode_lower forward_once fuel r query src_ip ≡ stuck
  unfolding resolve
  resolve-cycle ls v h at = ground (arith, parse_query-cycle ls fuel query v h at)

-- The resolver's two upstreams are asked in turn: the answer is that of the first, or if it fails
-- of the second, byte for byte, and SERVFAIL if both fail.
pub pass-new_resolver :
    (forward_once : Bytes → Bytes → Option Bytes) (bl : Blocklist) (policy : Option PolicyReader)
    (query : Bytes)
    → pass forward_once (new_resolver bl policy) query
      ≡ (elim (forward_once (bytes "1.1.1.1:53") query) [
        | some resp ↦ ok (resp, [])
        | none ↦ elim (forward_once (bytes "8.8.8.8:53") query) [
          | some resp ↦ ok (resp, [])
          | none ↦ ok (build_servfail query, [])
        ]
      ])
unfolding pass forward new_resolver
pass-new_resolver forward_once bl policy query = ground arith

-- The resolver behind a blocklist loaded from `rows`.
abbrev pub loaded_resolver :
    (Bytes → Bytes)
    → List (Option (Bytes × Bytes))
    → Blocklist
    → Option PolicyReader
    → List Bytes
    → Resolver
loaded_resolver unicode_lower rows old policy upstreams = record {
  blocklist = (load unicode_lower (fetched rows false) old).0;
  policy = policy;
  upstreams = upstreams;
}

module _ (unicode_lower : Bytes → Bytes) (forward_once : Bytes → Bytes → Option Bytes) (fuel : ℕ)
    (rows : List (Option (Bytes × Bytes))) (old : Blocklist) (policy : Option PolicyReader)
    (upstreams : List Bytes) (query src_ip : Bytes) where
  abbrev this_resolver : Resolver
  this_resolver = loaded_resolver unicode_lower rows old policy upstreams

  -- With a blocklist loaded from `rows`: a device that is not paused asks for the address of a name
  -- that a row lists, itself or by a parent. The answer is a response to that query and question
  -- with one record, the sinkhole's address 10.10.0.254; one event is recorded, for that name.
  pub resolve_listed :
      (m : Msg) (q : Question) (qs : List Question) (ls : List Bytes)
      → All IsByte query
      → parse_query fuel query ≡ ok m
      → m.questions ≡ q ∷ qs
      → q.qtype ≡ 1
      → All IsLabel ls
      → All NoDot ls
      → q.name ≡ join (bytes ".") ls
      → length ls < fuel
      → is_paused policy src_ip ≡ false
      → any (λ x. blocked x (entries unicode_lower rows)) (names (normalize unicode_lower q.name))
        ≡ true
      → (answer : Bytes) × (resolve unicode_lower forward_once fuel this_resolver query src_ip
          ≡ ok (
            answer,
            record {
              domain = q.name;
              src_ip = src_ip;
              category =
                  category_for unicode_lower (load unicode_lower (fetched rows false) old).0 q.name;
            }
                ∷ [],
          ))
        × (parse_query fuel answer
            ≡ ok (record {
              id = word query 0;
              flags = reply_flags (word query 2) 0;
              qd_count = 1;
              questions = record { name = q.name; qtype = 1; class = 1 } ∷ [];
              body = answer;
            }))
        × (word answer 6 ≡ 1)
        × At answer (12 + length (wire_name ls) + 4) (answer_record sinkhole_ip)
  unfolding block_event sinkhole
  resolve_listed m q qs ls bs parsed first type_a lv nd name enough awake hit =
      let (answer, built, again, one, at) =
        build_sinkhole_a-answers query sinkhole_ip m q qs ls fuel bs parsed first lv nd name
          enough in
      let listed : is_blocked unicode_lower this_resolver.blocklist q.name ≡ true =
        is_blocked-load unicode_lower rows old q.name ∙ hit in
      let decided =
        resolve_decides unicode_lower forward_once fuel this_resolver query src_ip m q qs parsed
          first in
      (answer, decided ∙ ground (arith, awake, listed, type_a, built), again, one, at)
