-- ===== src/Controlsync/Stats/Agreement.antt =====
-- The two readers of the dump, internal/tunnel/health.go and internal/controlsync/tunnel_stats.go.
use safeswitch_router.Common.{
  ℕ, ◌+◌, ◌*◌, ◌/◌, ◌≡◌, ◌⊎◌, refl, Bool, false, not, ◌&&◌, List, [], ◌∷◌, All, arith, Bytes,
  length, ltb, ◌==◌, Bool-cases, inl, inr,
}
use safeswitch_router.Common.Text.{split}
use safeswitch_router.Tunnel.Health.{PeerHealth, field_at, peer_health, peer_lines}
use safeswitch_router.Controlsync.Stats.{TunnelPeerStat, peer_stat, stat_lines}

-- One peer, said twice: stale is the opposite of connected, but for a handshake of three minutes ago
-- to the nanosecond, which is neither.
abbrev pub Agrees : ℕ → PeerHealth → TunnelPeerStat → Type 0
Agrees now h s =
    (h.public_key ≡ s.public_key)
    × (h.rx_bytes ≡ s.bytes_rx)
    × (h.tx_bytes ≡ s.bytes_tx)
    × ((h.stale ≡ not s.connected)
        ⊎ ((now ≡ (s.last_handshake_unix + 180) * 1_000_000_000)
            × (h.stale ≡ false)
            × (s.connected ≡ false)))

abbrev pub AllAgree : ℕ → List PeerHealth → List TunnelPeerStat → Type 0
AllAgree now [] [] = Unit {0}
AllAgree now [] (s ∷ ss) = ⊥
AllAgree now (h ∷ hs) [] = ⊥
AllAgree now (h ∷ hs) (s ∷ ss) = Agrees now h s × AllAgree now hs ss

module _ (trim_space : Bytes → Bytes) (parse_int : Bytes → ℕ × Bool) (now : ℕ)
    (valid : (s : Bytes) → (parse_int s).1 ≡ false → (parse_int s).0 ≡ 0) where
  peer-Agrees :
      (fields : List Bytes)
      → Agrees now
          (peer_health trim_space parse_int now fields)
          (peer_stat trim_space parse_int (now / 1_000_000_000) fields)
  unfolding peer_health peer_stat
  peer-Agrees fields =
      let ts = parse_int (field_at fields 4) in
      (
        refl,
        refl,
        refl,
        elim (Bool-cases (ts.1 && ltb 0 ts.0 && now == (ts.0 + 180) * 1_000_000_000)) [
          | inl e ↦ inr (ground (arith, e), ground (arith, e), ground (arith, e))
          | inr e ↦ inl (ground (arith, e, valid (field_at fields 4)))
        ],
      )

  -- Where the lines need no trimming, both readers find the same peers with the same counters, and
  -- say the same of each but at three minutes to the nanosecond; both read the clock at one time.
  pub stat_lines-AllAgree :
      (lines : List Bytes)
      → All (λ line. trim_space line ≡ line) lines
      → AllAgree now
          (peer_lines trim_space parse_int now lines)
          (stat_lines trim_space parse_int (now / 1_000_000_000) lines)
  unfolding peer_lines stat_lines
  stat_lines-AllAgree [] trimmed = tt
  stat_lines-AllAgree (line ∷ lines) trimmed =
      let rest = stat_lines-AllAgree lines trimmed.1 in
      elim (Bool-cases (length (trim_space line) == 0)) [
        | inl e ↦ rw e rest
        | inr e ↦ elim (Bool-cases (ltb (length (split b'\t' line)) 8)) [
          | inl f ↦ rw (e, trimmed.0, f) rest
          | inr f ↦ rw (e, trimmed.0, f) (peer-Agrees (split b'\t' line), rest)
        ]
      ]
