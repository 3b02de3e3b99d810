-- ===== src/Controlsync/Stats.antt =====
-- internal/controlsync/tunnel_stats.go: the same dump, read for the cloud. The lines that
-- `bufio.Scanner` gives, Go's `strings.TrimSpace` and `strconv.ParseInt` are parameters as in
-- internal/tunnel/health.go, with which it is compared. `now` is whole seconds.
pub mod Agreement
use safeswitch_router.Common.{
  ℕ, ◌+◌, ◌-◌, Bool, true, false, not, ◌&&◌, Option, none, some, List, [], ◌∷◌, Bytes, bytes,
  length, ltb, same, ◌==◌, if◌then◌else◌,
}
use safeswitch_router.Common.Text.{split}
use safeswitch_router.Tunnel.Health.{field_at}

pub record TunnelPeerStat : Type 0 where
  pub public_key : Bytes
  pub last_handshake_unix : ℕ
  pub bytes_tx : ℕ
  pub bytes_rx : ℕ
  pub connected : Bool

module _ (trim_space : Bytes → Bytes) (parse_int : Bytes → ℕ × Bool) (now : ℕ) where
  unfoldable pub peer_stat : List Bytes → TunnelPeerStat
  peer_stat fields =
      let handshake = (parse_int (field_at fields 4)).0 in
      record {
        public_key = field_at fields 0;
        last_handshake_unix = handshake;
        bytes_tx = (parse_int (field_at fields 6)).0;
        bytes_rx = (parse_int (field_at fields 5)).0;
        connected = ltb 0 handshake && ltb (now - handshake) 180;
      }

  unfoldable pub stat_lines : List Bytes → List TunnelPeerStat
  stat_lines [] = []
  stat_lines (line ∷ lines) =
      let rest = stat_lines lines in
      let trimmed = trim_space line in
      let fields = split b'\t' trimmed in
      if length trimmed == 0
      then rest
      else if ltb (length fields) 8
      then rest
      else peer_stat fields ∷ rest

  -- The first line is skipped.
  unfoldable pub parse_wg_dump : List Bytes → List TunnelPeerStat
  parse_wg_dump [] = []
  parse_wg_dump (_ ∷ lines) = stat_lines lines

  -- The peers that are posted; `none` posts nothing. `dump` is what `wg` printed, `none` for an error.
  unfoldable pub sync_tunnel_stats : Bytes → Option (List Bytes) → Option (List TunnelPeerStat)
  sync_tunnel_stats node_type none = none
  sync_tunnel_stats node_type (some dump) =
      let peers = parse_wg_dump dump in
      if same node_type (bytes "vps_relay")
      then none
      else if length peers == 0
      then none
      else some peers
