-- ===== src/Tunnel.antt =====
-- internal/tunnel/manager.go: the table `tunnel_peers` and what fills it. Logs, the loops' tickers and
-- the private key's files are left out. Go's `strings.TrimSpace`, the address of `net.ParseCIDR`
-- (`none` is its error) and `%d` are parameters; statements on the table succeed, but for the query of
-- `allocateIP`, and `apply` says whether the peers reach the interface. `SELECT` answers in the order of insertion.
pub mod Reconciled
pub mod Addresses
pub mod Health
pub mod Interface
use safeswitch_router.Common.{
  ℕ, zero, suc, ◌+◌, Bool, true, false, not, ◌&&◌, ◌||◌, Option, none, some, List, [], ◌∷◌, ◌++◌,
  map, any, Bytes, bytes, length, same, ◌==◌, if◌then◌else◌,
}
use safeswitch_router.Policy.{Bundle, ChildEffectiveState}

-- A row of `tunnel_peers`.
pub record PeerConfig : Type 0 where
  pub public_key : Bytes
  pub allowed_ip : Bytes
  pub device_mac : Bytes
  pub comment : Bytes

abbrev pub Peers : Type 0
Peers = List PeerConfig

abbrev pub tunnel_gateway : Bytes
tunnel_gateway = bytes "10.10.0.1"

-- `SELECT allowed_ip FROM tunnel_peers WHERE public_key = ?`
unfoldable pub ip_of : Bytes → Peers → Option Bytes
ip_of key [] = none
ip_of key (p ∷ peers) = if same p.public_key key then some p.allowed_ip else ip_of key peers

-- `DELETE FROM tunnel_peers WHERE public_key = ?`
unfoldable pub delete_peer : Bytes → Peers → Peers
delete_peer key [] = []
delete_peer key (p ∷ peers) =
    if same p.public_key key then delete_peer key peers else p ∷ delete_peer key peers

-- `INSERT OR REPLACE`: rows with the key or with the address go.
unfoldable pub replace_peer : PeerConfig → Peers → Peers
replace_peer row [] = row ∷ []
replace_peer row (p ∷ peers) =
    if same p.public_key row.public_key || same p.allowed_ip row.allowed_ip
    then replace_peer row peers
    else p ∷ replace_peer row peers

-- A child without a key or an address is passed over.
abbrev pub is_skipped : ChildEffectiveState → Bool
is_skipped c = length c.wireguard_public_key == 0 || length c.wireguard_ip == 0

unfoldable pub has_key : Bytes → List ChildEffectiveState → Bool
has_key key [] = false
has_key key (c ∷ cs) = (not (is_skipped c) && same c.wireguard_public_key key) || has_key key cs

-- The rows whose key the bundle has.
unfoldable pub drop_orphans : List ChildEffectiveState → Peers → Peers
drop_orphans children [] = []
drop_orphans children (p ∷ peers) =
    if has_key p.public_key children
    then p ∷ drop_orphans children peers
    else drop_orphans children peers

unfoldable pub is_bootstrap : Bundle → Bool
is_bootstrap b = same b.signature (bytes "bootstrap-local") || length b.version == 0

abbrev pub candidate : (ℕ → Bytes) → ℕ → Bytes
candidate decimal i = bytes "10.10.0." ++ decimal i

-- Does a row or the router itself hold the address?
unfoldable pub is_used : (Bytes → Option Bytes) → Peers → Bytes → Bool
is_used parse_cidr [] ip = same tunnel_gateway ip || same (bytes "10.10.0.254") ip
is_used parse_cidr (p ∷ peers) ip =
    (elim (parse_cidr p.allowed_ip) [ none ↦ false | some host ↦ same host ip ])
    || is_used parse_cidr peers ip

module _ (parse_cidr : Bytes → Option Bytes) (decimal : ℕ → Bytes) where
  -- `count` numbers from `i` on are tried.
  unfoldable pub first_free : Peers → ℕ → ℕ → Option Bytes
  first_free peers zero i = none
  first_free peers (suc count) i =
      let rest = first_free peers count (i + 1) in
      if not (is_used parse_cidr peers (candidate decimal i))
      then some (candidate decimal i)
      else rest

  -- `queries` says whether the table can be read.
  unfoldable pub allocate_ip : Bool → Peers → Option Bytes
  allocate_ip queries peers = if queries then first_free peers 252 2 else none

module _ (trim_space : Bytes → Bytes) where
  unfoldable pub normalize_allowed_ip : Bytes → Bytes
  normalize_allowed_ip v =
      let t = trim_space v in
      if length t == 0 then t else if any (λ c. c == 47) t then t else t ++ bytes "/32"

  unfoldable pub is_wireguard_key : Bytes → Bool
  is_wireguard_key key = length (trim_space key) == 44

  module _ (parse_cidr : Bytes → Option Bytes) where
    -- `none` is an error.
    unfoldable pub upsert_peer : Bytes → Bytes → Bytes → Bytes → Peers → Option Peers
    upsert_peer public_key allowed_ip device_mac comment peers =
        let ip = normalize_allowed_ip allowed_ip in
        if not (is_wireguard_key public_key) then none else elim (parse_cidr ip) [
          | none ↦ none
          | some host ↦ some (
              replace_peer
                (record {
                  public_key = public_key;
                  allowed_ip = ip;
                  device_mac = device_mac;
                  comment = comment;
                })
                peers)
        ]

    -- The row of a child; an error is ignored.
    unfoldable pub upsert_child : ChildEffectiveState → Peers → Peers
    upsert_child c peers =
        let ip = normalize_allowed_ip c.wireguard_ip in
        if is_skipped c
        then peers
        else elim (upsert_peer c.wireguard_public_key ip c.device_mac c.child_id peers) [
          | none ↦ peers
          | some after ↦ after
        ]

    unfoldable pub upsert_children : List ChildEffectiveState → Peers → Peers
    upsert_children [] peers = peers
    upsert_children (c ∷ cs) peers = upsert_children cs (upsert_child c peers)

    module _ (apply : Peers → Bool) where
      -- The table behind, and whether `nil` was returned for the error. `none` is no bundle yet.
      unfoldable pub sync : Option Bundle → Peers → Peers × Bool
      sync none peers = (peers, true)
      sync (some b) peers =
          let reconciled = drop_orphans b.children (upsert_children b.children peers) in
          if is_bootstrap b then (peers, apply peers) else (reconciled, apply reconciled)

      unfoldable pub remove_peer : Option Bundle → Bytes → Peers → Peers
      remove_peer active key peers = (sync active (delete_peer key peers)).0

      module _ (decimal : ℕ → Bytes) where
        -- The table behind, and the address or `none` for an error; an error of the synchronisation is
        -- only logged.
        unfoldable pub add_peer :
            Bool → Option Bundle → Bytes → Bytes → Bytes → Peers → Peers × Option Bytes
        add_peer queries active key mac comment peers =
            let existing : Bytes = elim (ip_of key peers) [ none ↦ [] | some ip ↦ ip ] in
            if not (is_wireguard_key key)
            then (peers, none)
            else if not (length existing == 0)
            then (peers, some existing)
            else elim (allocate_ip parse_cidr decimal queries peers) [
              | none ↦ (peers, none)
              | some ip ↦ elim (upsert_peer key (ip ++ bytes "/32") mac comment peers) [
                | none ↦ (peers, none)
                | some after ↦ ((sync active after).0, some (ip ++ bytes "/32"))
              ]
            ]
