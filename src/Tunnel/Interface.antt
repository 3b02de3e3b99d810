-- ===== src/Tunnel/Interface.antt =====
-- internal/tunnel/wgconf.go: the commands that bring the live peers of the interface to the desired
-- ones. Whether a command succeeds is a parameter. Go visits the map of the live peers in a random
-- order; here it is the order of the dump.
pub mod Passes
pub mod Steady
pub mod Orphans
pub mod Diffs
use safeswitch_router.Common.{
  ℕ, Bool, true, false, not, ◌&&◌, ◌||◌, Option, none, some, List, [], ◌∷◌, ◌++◌, Bytes, bytes,
  same, any, if◌then◌else◌,
}
use safeswitch_router.Common.Dict.{Dict, lookup, delete}
use safeswitch_router.Tunnel.{PeerConfig, normalize_allowed_ip}

-- The address of each live peer.
abbrev pub Live : Type 0
Live = Dict Bytes

-- `wg set wg0 peer <key> allowed-ips <ip>` and `wg set wg0 peer <key> remove`
pub data WgCommand : Type 0 where
  set_peer : Bytes → Bytes → WgCommand
  unset_peer : Bytes → WgCommand

-- What a pass returns: the source's map of the live peers, the commands run, and whether it went
-- through without an error.
pub record Pass : Type 0 where
  pub live : Live
  pub log : List WgCommand
  pub is_ok : Bool

-- Another peer with this address.
unfoldable pub holder : Bytes → Bytes → Live → Option Bytes
holder key ip [] = none
holder key ip ((j, w) ∷ live) = if same w ip && not (same j key) then some j else holder key ip live

abbrev pub is_desired : Bytes → List PeerConfig → Bool
is_desired key desired = any (λ p. same p.public_key key) desired

module _ (trim_space : Bytes → Bytes) (succeeds : WgCommand → Bool) where
  -- The removal of the peer that held the address.
  unfoldable pub free_ip : Bytes → Bytes → Live → Pass
  free_ip key ip live = elim (holder key ip live) [
    | none ↦ record { live = live; log = []; is_ok = true }
    | some old ↦
        if succeeds (unset_peer old)
        then record { live = delete old live; log = unset_peer old ∷ []; is_ok = true }
        else record { live = live; log = unset_peer old ∷ []; is_ok = false }
  ]

  abbrev pub is_unchanged : PeerConfig → Live → Bool
  is_unchanged p live = elim (lookup p.public_key live) [
    | none ↦ false
    | some ip ↦ same ip (normalize_allowed_ip trim_space p.allowed_ip)
  ]

  -- One desired peer. The map is not told of the address that the peer gets.
  unfoldable pub sync_peer : PeerConfig → Live → Pass
  sync_peer p live =
      let ip = normalize_allowed_ip trim_space p.allowed_ip in
      let freed = free_ip p.public_key ip live in
      let set = set_peer p.public_key ip in
      if is_unchanged p live
      then record { live = live; log = []; is_ok = true }
      else if not freed.is_ok
      then freed
      else record { live = freed.live; log = freed.log ++ set ∷ []; is_ok = succeeds set }

  unfoldable pub sync_desired : List PeerConfig → Live → Pass
  sync_desired [] live = record { live = live; log = []; is_ok = true }
  sync_desired (p ∷ desired) live =
      let first = sync_peer p live in
      let rest = sync_desired desired first.live in
      if first.is_ok
      then record { live = rest.live; log = first.log ++ rest.log; is_ok = rest.is_ok }
      else first

  unfoldable pub remove_orphans : List PeerConfig → Live → List WgCommand × Bool
  remove_orphans desired [] = ([], true)
  remove_orphans desired ((key, ip) ∷ live) =
      let rest = remove_orphans desired live in
      if is_desired key desired
      then rest
      else if succeeds (unset_peer key)
      then (unset_peer key ∷ rest.0, rest.1)
      else (unset_peer key ∷ [], false)

  -- The commands run, and whether `nil` was returned for the error.
  unfoldable pub sync_peers_diff : List PeerConfig → Live → List WgCommand × Bool
  sync_peers_diff desired live =
      let set = sync_desired desired live in
      let removed = remove_orphans desired set.live in
      if set.is_ok then (set.log ++ removed.0, removed.1) else (set.log, false)
