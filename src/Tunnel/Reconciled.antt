-- ===== src/Tunnel/Reconciled.antt =====
-- The table `tunnel_peers` behind a synchronisation of internal/tunnel/manager.go.
use safeswitch_router.Common.{
  ◌≡◌, refl, ap, Bool, true, false, not, ◌&&◌, ◌||◌, Option, none, some, List, [], ◌∷◌, arith, any,
  Bytes, same, same_refl, same_iff, if◌then◌else◌, Bool-cases, Option-cases, inl, inr,
}
use safeswitch_router.Common.Dict.{is_some}
use safeswitch_router.Policy.{Bundle, ChildEffectiveState}
use safeswitch_router.Tunnel.{
  PeerConfig, Peers, ip_of, replace_peer, normalize_allowed_ip, is_wireguard_key, upsert_peer,
  is_skipped, upsert_child, upsert_children, has_key, drop_orphans, is_bootstrap, sync,
}

ip_of-replace_peer_self :
    (row : PeerConfig) (peers : Peers)
    → ip_of row.public_key (replace_peer row peers) ≡ some row.allowed_ip
unfolding ip_of replace_peer
ip_of-replace_peer_self row [] = ground (arith, same_refl row.public_key)
ip_of-replace_peer_self row (p ∷ peers) = ground (arith, ip_of-replace_peer_self row peers)

-- A row with another key and another address stays.
ip_of-replace_peer :
    (row : PeerConfig) (key ip : Bytes) (peers : Peers)
    → same row.public_key key ≡ false
    → same row.allowed_ip ip ≡ false
    → ip_of key peers ≡ some ip
    → ip_of key (replace_peer row peers) ≡ some ip
unfolding ip_of replace_peer
ip_of-replace_peer row key ip [] h k e = ground (arith, e)
ip_of-replace_peer row key ip (p ∷ peers) h k e = ground (
  arith,
  h,
  k,
  e,
  same_iff p.public_key row.public_key,
  same_iff p.allowed_ip row.allowed_ip,
  same_refl ip,
  same_refl row.public_key,
  same_iff p.public_key key,
  same_iff row.public_key key,
  same_iff row.allowed_ip ip,
  same_iff row.public_key p.public_key,
  ip_of-replace_peer row key ip peers h k,
)

pub ip_of-drop_orphans :
    (key : Bytes) (children : List ChildEffectiveState) (peers : Peers)
    → ip_of key (drop_orphans children peers)
      ≡ (if has_key key children then ip_of key peers else none)
unfolding ip_of drop_orphans
ip_of-drop_orphans key children [] = ground arith
ip_of-drop_orphans key children (p ∷ peers) = elim (Bool-cases (same p.public_key key)) [
  | inl e ↦
      let k : p.public_key ≡ key = ground (arith, e, same_iff p.public_key key) in
      ground (arith, e, ap (λ j. has_key j children) k, ip_of-drop_orphans key children peers)
  | inr e ↦ ground (arith, e, ip_of-drop_orphans key children peers)
]

module _ (trim_space : Bytes → Bytes) (parse_cidr : Bytes → Option Bytes) where
  -- The address that the source makes of a child's.
  abbrev pub address : ChildEffectiveState → Bytes
  address c = normalize_allowed_ip trim_space (normalize_allowed_ip trim_space c.wireguard_ip)

  -- The address that the children give a key.
  abbrev pub wanted_ip : Bytes → List ChildEffectiveState → Option Bytes
  wanted_ip key [] = none
  wanted_ip key (c ∷ cs) =
      if not (is_skipped c) && same c.wireguard_public_key key
      then some (address c)
      else wanted_ip key cs

  abbrev pub takes : Bytes → Bytes → ChildEffectiveState → Bool
  takes key ip d = not (is_skipped d) && (same d.wireguard_public_key key || same (address d) ip)

  -- The children that are not passed over have valid keys and addresses, each of them once.
  abbrev pub is_consistent : List ChildEffectiveState → Bool
  is_consistent [] = true
  is_consistent (c ∷ cs) =
      (is_skipped c
        || (is_wireguard_key trim_space c.wireguard_public_key
            && is_some (parse_cidr (address c))
            && not (any (takes c.wireguard_public_key (address c)) cs)))
      && is_consistent cs

  row_of : ChildEffectiveState → PeerConfig
  row_of c = record {
    public_key = c.wireguard_public_key;
    allowed_ip = address c;
    device_mac = c.device_mac;
    comment = c.child_id;
  }

  is_written : ChildEffectiveState → Bool
  is_written c =
      not (is_skipped c)
      && (is_wireguard_key trim_space c.wireguard_public_key && is_some (parse_cidr (address c)))

  upsert_child-is_written :
      (c : ChildEffectiveState) (peers : Peers)
      → upsert_child trim_space parse_cidr c peers
        ≡ (if is_written c then replace_peer (row_of c) peers else peers)
  unfolding upsert_child upsert_peer row_of is_written
  upsert_child-is_written c peers = elim (Option-cases (parse_cidr (address c))) [
    | inl e ↦ ground (arith, e)
    | inr (host, e) ↦ ground (arith, e)
  ]

  upsert_child-kept :
      (key ip : Bytes) (c : ChildEffectiveState) (peers : Peers)
      → ip_of key peers ≡ some ip
      → takes key ip c ≡ false
      → ip_of key (upsert_child trim_space parse_cidr c peers) ≡ some ip
  unfolding is_written row_of
  upsert_child-kept key ip c peers e h =
      ground
        (arith, e, h, upsert_child-is_written c peers, ip_of-replace_peer (row_of c) key ip peers)

  upsert_children-kept :
      (key ip : Bytes) (cs : List ChildEffectiveState) (peers : Peers)
      → ip_of key peers ≡ some ip
      → any (takes key ip) cs ≡ false
      → ip_of key (upsert_children trim_space parse_cidr cs peers) ≡ some ip
  unfolding upsert_children
  upsert_children-kept key ip [] peers e h = e
  upsert_children-kept key ip (c ∷ cs) peers e h =
      upsert_children-kept key ip cs (upsert_child trim_space parse_cidr c peers)
        (upsert_child-kept key ip c peers e (ground (arith, h))) (ground (arith, h))

  upsert_children-wanted_ip :
      (key : Bytes) (cs : List ChildEffectiveState) (peers : Peers)
      → is_consistent cs ≡ true
      → has_key key cs ≡ true
      → ip_of key (upsert_children trim_space parse_cidr cs peers) ≡ wanted_ip key cs
  unfolding upsert_children has_key is_written row_of
  upsert_children-wanted_ip key [] peers h k = absurd (ground (arith, k))
  upsert_children-wanted_ip key (c ∷ cs) peers h k =
      let next = upsert_child trim_space parse_cidr c peers in
      elim (Bool-cases (not (is_skipped c) && same c.wireguard_public_key key)) [
        | inl e ↦
            let m : c.wireguard_public_key ≡ key =
              ground (arith, e, same_iff c.wireguard_public_key key) in
            let first : ip_of key next ≡ some (address c) = ground (
              arith,
              e,
              h,
              m,
              upsert_child-is_written c peers,
              ip_of-replace_peer_self (row_of c) peers,
            ) in
            let free : any (takes key (address c)) cs ≡ false =
              ground (arith, e, h, ap (λ j. any (takes j (address c)) cs) m) in
            ground (arith, e, upsert_children-kept key (address c) cs next first free)
        | inr e ↦ ground (
          arith,
          e,
          upsert_children-wanted_ip key cs next (ground (arith, h)) (ground (arith, k, e)),
        )
      ]

  wanted_ip-has_key :
      (key : Bytes) (cs : List ChildEffectiveState)
      → has_key key cs ≡ false
      → wanted_ip key cs ≡ none
  unfolding has_key
  wanted_ip-has_key key [] h = refl
  wanted_ip-has_key key (c ∷ cs) h = ground (arith, h, wanted_ip-has_key key cs)

  -- Behind a synchronisation with a bundle that is not the bootstrap's, and whose children have valid
  -- keys and addresses, each of them once, the table has exactly the bundle's keys, each with the
  -- address of its child, whatever it held before and whether or not the interface takes it.
  pub sync-wanted_ip :
      (apply : Peers → Bool) (b : Bundle) (key : Bytes) (peers : Peers)
      → is_bootstrap b ≡ false
      → is_consistent b.children ≡ true
      → ip_of key (sync trim_space parse_cidr apply (some b) peers).0 ≡ wanted_ip key b.children
  unfolding sync
  sync-wanted_ip apply b key peers h v =
      let after = upsert_children trim_space parse_cidr b.children peers in
      elim (Bool-cases (has_key key b.children)) [
        | inl e ↦ ground (
          arith,
          h,
          e,
          ip_of-drop_orphans key b.children after,
          upsert_children-wanted_ip key b.children peers v e,
        )
        | inr e ↦ ground (
          arith,
          h,
          e,
          ip_of-drop_orphans key b.children after,
          wanted_ip-has_key key b.children e,
        )
      ]
