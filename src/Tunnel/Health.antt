-- ===== src/Tunnel/Health.antt =====
-- internal/tunnel/health.go: the health of the tunnel's peers, read from `wg show wg0 dump`. Go's
-- `strings.TrimSpace` and `strconv.ParseInt` (the number, and whether there was no error) are
-- parameters, over numbers without a sign, as `wg` prints them. The times of handshakes
-- are seconds, and `now` is nanoseconds.
use safeswitch_router.Common.{
  ℕ, ◌-◌, ◌*◌, Bool, true, ◌&&◌, Option, none, some, List, [], ◌∷◌, Bytes, bytes, length, get_or,
  leb, ltb, ◌==◌, if◌then◌else◌,
}
use safeswitch_router.Common.Text.{split}

pub record PeerHealth : Type 0 where
  pub public_key : Bytes
  pub endpoint : Bytes
  pub last_handshake : Option ℕ
  pub rx_bytes : ℕ
  pub tx_bytes : ℕ
  pub stale : Bool

pub record PeerHealthSnapshot : Type 0 where
  pub interface : Bytes
  pub listen_port : ℕ
  pub peer_count : ℕ
  pub peers : List PeerHealth
  pub captured_at : ℕ

abbrev pub field_at : List Bytes → ℕ → Bytes
field_at fields i = get_or fields i []

unfoldable pub stale_peers : List PeerHealth → List PeerHealth
stale_peers [] = []
stale_peers (p ∷ peers) = let rest = stale_peers peers in if p.stale then p ∷ rest else rest

module _ (trim_space : Bytes → Bytes) (parse_int : Bytes → ℕ × Bool) (now : ℕ) where
  unfoldable pub peer_health : List Bytes → PeerHealth
  peer_health fields =
      let ts = parse_int (field_at fields 4) in
      let seen = ts.1 && ltb 0 ts.0 in
      record {
        public_key = field_at fields 0;
        endpoint = field_at fields 2;
        last_handshake = if seen then some ts.0 else none;
        rx_bytes = (parse_int (field_at fields 5)).0;
        tx_bytes = (parse_int (field_at fields 6)).0;
        stale = if seen then ltb 180_000_000_000 (now - ts.0 * 1_000_000_000) else true;
      }

  unfoldable pub peer_lines : List Bytes → List PeerHealth
  peer_lines [] = []
  peer_lines (line ∷ lines) =
      let rest = peer_lines lines in
      let fields = split b'\t' line in
      if length (trim_space line) == 0
      then rest
      else if ltb (length fields) 8
      then rest
      else peer_health fields ∷ rest

  -- The first line is the interface's.
  unfoldable pub parse_dump : Bytes → PeerHealthSnapshot
  parse_dump dump =
      let lines = split b'\n' (trim_space dump) in
      let head : List Bytes = elim lines [ [] ↦ [] | line ∷ _ ↦ split b'\t' line ] in
      let peers : List PeerHealth = elim lines [ [] ↦ [] | _ ∷ rest ↦ peer_lines rest ] in
      record {
        interface = bytes "wg0";
        listen_port = if leb 3 (length head) then (parse_int (field_at head 2)).0 else 0;
        peer_count = length peers;
        peers = peers;
        captured_at = now;
      }
