-- ===== src/Sniproxy.antt =====
-- internal/sniproxy/sniproxy.go: what `handle` does with one connection. The reader's `Peek` and the
-- parser of the handshake (crypto/tls) are the parameters `peek` (`none` is its error) and
-- `server_name`. The sockets are left out: an outcome says how the connection goes on.
pub mod Decisions
use safeswitch_router.Common.{
  ℕ, ◌+◌, ◌*◌, Bool, true, false, not, ◌&&◌, ◌||◌, Option, none, some, List, [], ◌∷◌, Bytes, bytes,
  length, ltb, ◌==◌, if◌then◌else◌,
}
use safeswitch_router.Common.Dict.{Dict, has}
use safeswitch_router.Common.Text.{to_lower}
use safeswitch_router.Dns.Packet.{byte_at}
use safeswitch_router.Dns.Blocklist.{
  StringSet, Blocklist, is_blocked, is_blocked_for_categories, category_for,
}
use safeswitch_router.Dns.Resolver.{PolicyReader, BlockEvent, is_paused, blocked_categories}

abbrev pub protective_categories : StringSet
protective_categories =
    (bytes "phishing", tt)
    ∷ (bytes "malware", tt)
    ∷ (bytes "scam", tt)
    ∷ (bytes "ransomware", tt)
    ∷ (bytes "cryptojacking", tt)
    ∷ (bytes "newly_registered", tt)
    ∷ []

-- A `nil` policy is `none`.
pub record Server : Type 0 where
  pub blocklist : Blocklist
  pub policy : Option PolicyReader

-- Closed at once, spliced to its destination, or answered with a TLS alert and reset.
pub data Outcome : Type 0 where
  closed passed alerted : Outcome

-- `int(hdr[3])<<8 | int(hdr[4])`
unfoldable pub record_len : Bytes → ℕ
record_len hdr = byte_at hdr 3 * 256 + byte_at hdr 4

module _ (unicode_lower : Bytes → Bytes) where
  unfoldable pub is_protective : Bytes → Bool
  is_protective category = has (to_lower unicode_lower category) protective_categories

  -- The decision on a server name, in lower case.
  unfoldable pub decide : Server → Bytes → Bytes → Outcome × List BlockEvent
  decide s sni src_ip =
      let cat = category_for unicode_lower s.blocklist sni in
      let cats = blocked_categories s.policy src_ip in
      let known = ltb 0 (length cats) in
      let paused : BlockEvent = record {
        domain = sni;
        src_ip = src_ip;
        category = bytes "paused";
      } in
      let event : BlockEvent = record { domain = sni; src_ip = src_ip; category = cat } in
      if is_paused s.policy src_ip
      then (alerted, paused ∷ [])
      else if is_blocked unicode_lower s.blocklist sni
      then (if not known && not (is_protective cat) then (passed, []) else (alerted, event ∷ []))
      else if known
      then (if is_blocked_for_categories unicode_lower s.blocklist sni cats
          then (alerted, event ∷ [])
          else (passed, []))
      else (passed, [])

  module _ (server_name : Bytes → Bytes) where
    -- A record that was read whole.
    unfoldable pub inspect : Server → Bytes → Bytes → Outcome × List BlockEvent
    inspect s full src_ip =
        let sni = server_name full in
        if length sni == 0 then (passed, []) else decide s (to_lower unicode_lower sni) src_ip

    unfoldable pub handle : (ℕ → Option Bytes) → Server → Bytes → Outcome × List BlockEvent
    handle peek s src_ip = elim (peek 5) [
      | none ↦ (closed, [])
      | some hdr ↦
          if ltb (length hdr) 5
          then (closed, [])
          else if not (byte_at hdr 0 == 0x16)
          then (passed, [])
          else if record_len hdr == 0 || ltb 16384 (record_len hdr)
          then (closed, [])
          else elim (peek (5 + record_len hdr)) [
            | none ↦ (passed, [])
            | some full ↦
                if ltb (length full) (5 + record_len hdr)
                then (passed, [])
                else inspect s full src_ip
          ]
    ]
