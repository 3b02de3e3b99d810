-- ===== src/Sniproxy/Decisions.antt =====
-- What internal/sniproxy/sniproxy.go blocks, beside internal/dns/resolver.go.
use safeswitch_router.Common.{
  ℕ, ◌+◌, ◌<◌, ◌≤◌, ◌≡◌, false, ◌&&◌, Option, none, some, List, [], ◌∷◌, arith, Bytes, bytes,
  IsByte, All, length, if◌then◌else◌, ◌⊎◌, inl, inr,
}
use safeswitch_router.Dns.Packet.{byte_at}
use safeswitch_router.Common.Text.{join}
use safeswitch_router.Dns.Wire.{ok, Question, Msg, parse_query}
use safeswitch_router.Dns.Wire.Names.{IsLabel}
use safeswitch_router.Dns.Wire.Encoding.{NoDot}
use safeswitch_router.Dns.Blocklist.{Blocklist, is_blocked, category_for}
use safeswitch_router.Dns.Resolver.{PolicyReader, new_resolver, is_paused, blocked_categories}
use safeswitch_router.Dns.Resolver.Answers.{Holds, Forwards, outcome, events_for, resolve-answers}
use safeswitch_router.Sniproxy.{Server, passed, alerted, record_len, is_protective, decide, handle}

module _ (unicode_lower : Bytes → Bytes) where
  -- For a device with blocked categories the proxy and the resolver, over the same blocklist and
  -- policy, agree on a name: either the proxy cuts the connection and a query for the name gets the
  -- sinkhole's address or NXDOMAIN, or the proxy passes it on and the client of the query gets what
  -- an upstream answers, or SERVFAIL.
  pub decide-resolve :
      (forward_once : Bytes → Bytes → Option Bytes) (fuel : ℕ) (bl : Blocklist)
      (policy : Option PolicyReader) (query src_ip : Bytes) (m : Msg) (q : Question)
      (qs : List Question) (ls : List Bytes)
      → All IsByte query
      → parse_query fuel query ≡ ok m
      → m.questions ≡ q ∷ qs
      → All IsLabel ls
      → All NoDot ls
      → q.name ≡ join (bytes ".") ls
      → length ls < fuel
      → 0 < length (blocked_categories policy src_ip)
      → (((decide unicode_lower (record { blocklist = bl; policy = policy }) q.name src_ip).0
            ≡ alerted)
          × Holds fuel query q ls
              (events_for unicode_lower forward_once fuel bl policy query src_ip q)
              (outcome unicode_lower forward_once fuel bl policy query src_ip))
        ⊎ (((decide unicode_lower (record { blocklist = bl; policy = policy }) q.name src_ip).0
              ≡ passed)
            × Forwards forward_once query
                (outcome unicode_lower forward_once fuel bl policy query src_ip))
  unfolding decide new_resolver
  decide-resolve forward_once fuel bl policy query src_ip m q qs ls bs parsed first lv nd name
        enough known =
      elim (resolve-answers unicode_lower forward_once fuel bl policy query src_ip m q qs ls bs
        parsed first lv nd name enough) [
          | inl (h, held) ↦ inl (ground (arith, h, known), held)
          | inr (h, sent) ↦ inr (ground (arith, h, known), sent)
        ]

  -- For a device with no blocked categories that is not paused, the proxy cuts a connection only if
  -- the name is blocked for all and its category is a protective one.
  pub decide-unknown :
      (s : Server) (sni src_ip : Bytes)
      → length (blocked_categories s.policy src_ip) ≡ 0
      → is_paused s.policy src_ip ≡ false
      → (decide unicode_lower s sni src_ip).0 ≡ (
          if is_blocked unicode_lower s.blocklist sni
            && is_protective unicode_lower (category_for unicode_lower s.blocklist sni)
          then alerted
          else passed)
  unfolding decide
  decide-unknown s sni src_ip h k = ground (arith, h, k)

  -- The reader's buffer has 16384 bytes, and it refuses to peek further. So a handshake record of
  -- more than 16379 bytes is passed through with no event, whatever its server name, also of a
  -- paused device.
  pub handle-oversized :
      (server_name : Bytes → Bytes) (peek : ℕ → Option Bytes) (s : Server) (src_ip hdr : Bytes)
      → ((n : ℕ) → 16384 < n → peek n ≡ none)
      → peek 5 ≡ some hdr
      → length hdr ≡ 5
      → byte_at hdr 0 ≡ 0x16
      → 16379 < record_len hdr
      → record_len hdr ≤ 16384
      → handle unicode_lower server_name peek s src_ip ≡ (passed, [])
  unfolding handle
  handle-oversized server_name peek s src_ip hdr full e size tls h k =
      ground (arith, e, size, tls, h, k, full (5 + record_len hdr))
