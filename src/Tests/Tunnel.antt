-- ===== src/Tests/Tunnel.antt =====
-- internal/tunnel on small inputs.
use safeswitch_router.Common.{
  List, if◌then◌else◌, Bool-cases, inl, inr, ap, same_iff, arith, ℕ, ◌+◌, ◌≡◌, refl, Bool, true,
  false, Option, none, some, [], ◌∷◌, Bytes, bytes, same, take,
}
use safeswitch_router.Policy.{Bundle, ChildEffectiveState}
use safeswitch_router.Tunnel.{
  PeerConfig, Peers, ip_of, normalize_allowed_ip, is_wireguard_key, is_bootstrap, sync, allocate_ip,
}
use safeswitch_router.Tunnel.Interface.{
  Live, WgCommand, set_peer, unset_peer, sync_peers_diff, sync_desired, sync_peer, free_ip, holder,
  remove_orphans,
}
use safeswitch_router.Tunnel.Interface.Passes.{is_held, run_all}
use safeswitch_router.Tunnel.Interface.Diffs.{sync_peers_diff-desired_ip}
use safeswitch_router.Common.Dict.{lookup, insert, delete, lookup-delete, lookup-insert}
use safeswitch_router.Tunnel.Reconciled.{sync-wanted_ip}
use safeswitch_router.Tunnel.Addresses.{IsFirstFree, allocate_ip-IsFirstFree}

abbrev trim_space : Bytes → Bytes
trim_space s = s

-- The nine bytes of an address here, without the mask.
abbrev parse_cidr : Bytes → Option Bytes
parse_cidr s = some (take 9 s)

abbrev apply : Peers → Bool
apply peers = true

abbrev decimal : ℕ → Bytes
decimal n = (48 + n) ∷ []

abbrev key : Bytes
key = bytes "0123456789012345678901234567890123456789012="

abbrev other_key : Bytes
other_key = bytes "9123456789012345678901234567890123456789012="

abbrev child : ChildEffectiveState
child = record {
  child_id = bytes "c1";
  device_mac = bytes "aa:bb";
  wireguard_public_key = key;
  wireguard_ip = bytes "10.10.0.2";
  mode = [];
  lock_enabled = false;
  dns_profile_id = [];
  allowed_services = [];
  blocked_categories = [];
}

abbrev bundle : Bundle
bundle = record {
  version = bytes "v1";
  issued_at = 1;
  expires_at = 2;
  signature = bytes "s";
  emergency_domains = [];
  children = child ∷ [];
}

-- A peer of no child, with the child's address.
abbrev peers : Peers
peers =
    record {
      public_key = other_key;
      allowed_ip = bytes "10.10.0.2/32";
      device_mac = [];
      comment = [];
    }
    ∷ []

sync-wanted_ip_example :
    ip_of key (sync trim_space parse_cidr apply (some bundle) peers).0 ≡ some (bytes "10.10.0.2/32")
unfolding is_bootstrap same normalize_allowed_ip is_wireguard_key
sync-wanted_ip_example = sync-wanted_ip trim_space parse_cidr apply bundle key peers refl refl

allocate_ip-IsFirstFree_example :
    IsFirstFree parse_cidr decimal peers 252 2 (allocate_ip parse_cidr decimal true peers)
    × (allocate_ip parse_cidr decimal false peers ≡ none)
allocate_ip-IsFirstFree_example = allocate_ip-IsFirstFree parse_cidr decimal peers

abbrev succeeds : WgCommand → Bool
succeeds c = true

abbrev peer : Bytes → Bytes → PeerConfig
peer key ip = record { public_key = key; allowed_ip = ip; device_mac = []; comment = [] }

-- "a" stays, "c" is new with the address of "b", which nobody desires.
abbrev desired : List PeerConfig
desired = peer (bytes "a") (bytes "1/32") ∷ peer (bytes "c") (bytes "2/32") ∷ []

abbrev live : Live
live = (bytes "a", bytes "1/32") ∷ (bytes "b", bytes "2/32") ∷ []

-- Of `rest` the peers that do not hold the address in `table`.
abbrev without : Bytes → Live → Live → Live
without ip table [] = []
without ip table ((k, w) ∷ rest) =
    if is_held ip (lookup k table) then without ip table rest else (k, w) ∷ without ip table rest

lookup-without :
    (ip j : Bytes) (table rest : Live)
    → lookup j (without ip table rest)
      ≡ (if is_held ip (lookup j table) then none else lookup j rest)
unfolding lookup
lookup-without ip j table [] = ground arith
lookup-without ip j table ((k, w) ∷ rest) = elim (Bool-cases (same k j)) [
  | inl m ↦
      let e : k ≡ j = ground (arith, m, same_iff k j) in
      ground (arith, m, ap (λ x. lookup x table) e, lookup-without ip j table rest)
  | inr m ↦ ground (arith, m, lookup-without ip j table rest)
]

-- The interface.
abbrev wg : WgCommand → Live → Live
wg (set_peer key ip) table = insert key ip (without ip table table)
wg (unset_peer key) table = delete key table

wg-set_peer :
    (key ip j : Bytes) (table : Live)
    → lookup j (wg (set_peer key ip) table) ≡ (
        if same key j
        then some ip
        else if is_held ip (lookup j table)
        then none
        else lookup j table)
wg-set_peer key ip j table =
    ground (arith, lookup-insert key j ip (without ip table table), lookup-without ip j table table)

sync_peers_diff-desired_ip_example :
    lookup (bytes "c") (run_all wg (sync_peers_diff trim_space succeeds desired live).0 live)
    ≡ some (bytes "2/32")
unfolding lookup same normalize_allowed_ip
sync_peers_diff-desired_ip_example =
    sync_peers_diff-desired_ip trim_space succeeds wg wg-set_peer
      (λ key j table. lookup-delete key j table) (λ c. refl) desired live (bytes "c") refl refl

-- Two peers that change addresses: the second removes the first, which was just set.
swap_run :
    (sync_peers_diff trim_space succeeds
      (peer (bytes "a") (bytes "2/32") ∷ peer (bytes "b") (bytes "1/32") ∷ [])
      live).0
    ≡ unset_peer (bytes "b")
      ∷ set_peer (bytes "a") (bytes "2/32")
      ∷ unset_peer (bytes "a")
      ∷ set_peer (bytes "b") (bytes "1/32")
      ∷ []
unfolding sync_peers_diff sync_desired sync_peer free_ip holder remove_orphans lookup delete same
    normalize_allowed_ip
swap_run = refl
