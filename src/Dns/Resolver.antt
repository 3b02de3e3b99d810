-- ===== src/Dns/Resolver.antt =====
-- internal/dns/resolver.go and block_sink.go. The events handed to the sink are returned beside the
-- answer; log lines are left out. The exchange with one upstream server over UDP is a parameter
-- (`none` is its error), and so is the policy reader.
pub mod Decisions
pub mod Answers
use safeswitch_router.Common.{
  ℕ, zero, suc, Bool, true, false, Option, none, some, List, [], ◌∷◌, Bytes, bytes, length, ltb,
  ◌==◌, if◌then◌else◌,
}
use safeswitch_router.Dns.Wire.{
  Result, ok, short, stuck, Question, Msg, parse_query, build_servfail, build_nxdomain,
  build_sinkhole_a,
}
use safeswitch_router.Dns.Blocklist.{Blocklist, is_blocked, is_blocked_for_categories, category_for}

pub record BlockEvent : Type 0 where
  pub domain : Bytes
  pub src_ip : Bytes
  pub category : Bytes

pub record PolicyReader : Type 0 where
  pub internet_paused_for_ip : Bytes → Bool
  pub blocked_categories_for_ip : Bytes → List Bytes

-- A `nil` policy is `none`.
pub record Resolver : Type 0 where
  pub blocklist : Blocklist
  pub policy : Option PolicyReader
  pub upstreams : List Bytes

abbrev pub q_type_a : ℕ
q_type_a = 1

abbrev pub sinkhole_ip : Bytes
sinkhole_ip = 10 ∷ 10 ∷ 0 ∷ 254 ∷ []

unfoldable pub new_resolver : Blocklist → Option PolicyReader → Resolver
new_resolver bl policy = record {
  blocklist = bl;
  policy = policy;
  upstreams = bytes "1.1.1.1:53" ∷ bytes "8.8.8.8:53" ∷ [];
}

-- `r.policy != nil && r.policy.InternetPausedForIP(srcIP)`
abbrev pub is_paused : Option PolicyReader → Bytes → Bool
is_paused none src_ip = false
is_paused (some p) src_ip = p.internet_paused_for_ip src_ip

-- The child's categories, none without a policy.
abbrev pub blocked_categories : Option PolicyReader → Bytes → List Bytes
blocked_categories none src_ip = []
blocked_categories (some p) src_ip = p.blocked_categories_for_ip src_ip

-- An answer beside the events recorded on the way.
abbrev pub with_events : List BlockEvent → Result Bytes → Result (Bytes × List BlockEvent)
with_events events (ok r) = ok (r, events)
with_events events short = short
with_events events stuck = stuck

-- The A record of the sinkhole for an A query, NXDOMAIN for any other.
unfoldable pub sinkhole : ℕ → Bytes → Question → Result Bytes
sinkhole fuel query q =
    if q.qtype == q_type_a
    then build_sinkhole_a fuel query sinkhole_ip
    else ok (build_nxdomain query)

unfoldable pub block_event : (Bytes → Bytes) → Resolver → Question → Bytes → BlockEvent
block_event unicode_lower r q src_ip = record {
  domain = q.name;
  src_ip = src_ip;
  category = category_for unicode_lower r.blocklist q.name;
}

module _ (forward_once : Bytes → Bytes → Option Bytes) where
  -- The first upstream that answers. With no upstream at all Go returns no bytes and no error.
  unfoldable pub forward : List Bytes → Bool → Bytes → Option Bytes
  forward [] failed query = if failed then none else some []
  forward (upstream ∷ upstreams) failed query = elim (forward_once upstream query) [
    | some resp ↦ some resp
    | none ↦ forward upstreams true query
  ]

  unfoldable pub pass : Resolver → Bytes → Result (Bytes × List BlockEvent)
  pass r query = elim (forward r.upstreams false query) [
    | some resp ↦ ok (resp, [])
    | none ↦ ok (build_servfail query, [])
  ]

module _ (unicode_lower : Bytes → Bytes) (forward_once : Bytes → Bytes → Option Bytes) where
  unfoldable pub resolve_question :
      ℕ → Resolver → Bytes → Bytes → Question → Result (Bytes × List BlockEvent)
  resolve_question fuel r query src_ip q =
      let cats = blocked_categories r.policy src_ip in
      let event = block_event unicode_lower r q src_ip in
      if is_paused r.policy src_ip
      then with_events [] (sinkhole fuel query q)
      else if is_blocked unicode_lower r.blocklist q.name
      then with_events (event ∷ []) (sinkhole fuel query q)
      else if ltb 0 (length cats)
      then (if is_blocked_for_categories unicode_lower r.blocklist q.name cats
          then with_events (event ∷ []) (sinkhole fuel query q)
          else pass forward_once r query)
      else pass forward_once r query

  -- Only the first question counts.
  unfoldable pub resolve : ℕ → Resolver → Bytes → Bytes → Result (Bytes × List BlockEvent)
  resolve fuel r query src_ip = elim (parse_query fuel query) [
    | stuck ↦ stuck
    | short ↦ ok (build_servfail query, [])
    | ok m ↦ elim m.questions [
      | [] ↦ ok (build_servfail query, [])
      | q ∷ qs ↦ resolve_question fuel r query src_ip q
    ]
  ]
