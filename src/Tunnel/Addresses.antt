-- ===== src/Tunnel/Addresses.antt =====
-- The addresses that internal/tunnel/manager.go gives to new peers, and how long they last.
use safeswitch_router.Common.{
  ℕ, zero, suc, ◌+◌, ◌<◌, ◌≡◌, ◌⊎◌, refl, ap, ◌∙◌, Bool, true, false, Option, none, some, [], ◌∷◌,
  ◌++◌, arith, Bytes, bytes, same, same_iff, Bool-cases, Option-cases, inl, inr,
}
use safeswitch_router.Policy.{Bundle}
use safeswitch_router.Tunnel.{
  PeerConfig, Peers, ip_of, replace_peer, normalize_allowed_ip, is_wireguard_key, upsert_peer,
  upsert_children, has_key, is_bootstrap, sync, candidate, tunnel_gateway, is_used, first_free,
  allocate_ip, add_peer,
}
use safeswitch_router.Tunnel.Reconciled.{ip_of-drop_orphans}

module _ (parse_cidr : Bytes → Option Bytes) (decimal : ℕ → Bytes) where
  -- A row of the table has the address.
  abbrev pub IsInTable : Bytes → Peers → Type 0
  IsInTable ip [] = ⊥
  IsInTable ip (p ∷ peers) = (parse_cidr p.allowed_ip ≡ some ip) ⊎ IsInTable ip peers

  -- A row of the table has the address, or it is one of the router's own two.
  abbrev pub IsTaken : Bytes → Peers → Type 0
  IsTaken ip peers = IsInTable ip peers ⊎ ((ip ≡ bytes "10.10.0.1") ⊎ (ip ≡ bytes "10.10.0.254"))

  is_used-IsTaken :
      (ip : Bytes) (peers : Peers) → is_used parse_cidr peers ip ≡ true → IsTaken ip peers
  unfolding is_used
  is_used-IsTaken ip [] h = elim (Bool-cases (same tunnel_gateway ip)) [
    | inl e ↦ inr (inl (ground (arith, e, same_iff tunnel_gateway ip)))
    | inr e ↦ inr (inr (ground (arith, e, h, same_iff (bytes "10.10.0.254") ip)))
  ]
  is_used-IsTaken ip (p ∷ peers) h = elim (Bool-cases (is_used parse_cidr peers ip)) [
    | inl e ↦ elim (is_used-IsTaken ip peers e) [ inl t ↦ inl (inr t) | inr r ↦ inr r ]
    | inr e ↦ elim (Option-cases (parse_cidr p.allowed_ip)) [
      | inl n ↦ absurd (ground (arith, h, e, n))
      | inr (host, n) ↦
          let found : host ≡ ip = ground (arith, h, e, n, same_iff host ip) in
          inl (inl (n ∙ ap (λ x. some x) found))
    ]
  ]

  IsTaken-is_used :
      (ip : Bytes) (peers : Peers) → IsTaken ip peers → is_used parse_cidr peers ip ≡ true
  unfolding is_used
  IsTaken-is_used ip [] (inl t) = absurd t
  IsTaken-is_used ip [] (inr (inl e)) = ground (arith, e, same_iff tunnel_gateway ip)
  IsTaken-is_used ip [] (inr (inr e)) = ground (arith, e, same_iff (bytes "10.10.0.254") ip)
  IsTaken-is_used ip (p ∷ peers) (inl (inl e)) = ground (arith, e, same_iff ip ip)
  IsTaken-is_used ip (p ∷ peers) (inl (inr t)) = ground (arith, IsTaken-is_used ip peers (inl t))
  IsTaken-is_used ip (p ∷ peers) (inr r) = ground (arith, IsTaken-is_used ip peers (inr r))

  module _ (peers : Peers) where
    -- The candidates of `count` numbers from `i` on are taken.
    abbrev pub AllTaken : ℕ → ℕ → Type 0
    AllTaken zero i = Unit {0}
    AllTaken (suc count) i = IsTaken (candidate decimal i) peers × AllTaken count (i + 1)

    -- The first candidate that is not taken, none if all are.
    abbrev pub IsFirstFree : ℕ → ℕ → Option Bytes → Type 0
    IsFirstFree count i none = AllTaken count i
    IsFirstFree count i (some ip) =
        (n : ℕ) × (n < count)
        × (ip ≡ candidate decimal (i + n))
        × AllTaken n i
        × (¬ IsTaken ip peers)

    IsFirstFree-suc :
        (count i : ℕ) (o : Option Bytes)
        → IsTaken (candidate decimal i) peers
        → IsFirstFree count (i + 1) o
        → IsFirstFree (suc count) i o
    IsFirstFree-suc count i none e h = (e, h)
    IsFirstFree-suc count i (some ip) e (n, l, m, u, f) =
        let shift : i + 1 + n ≡ i + suc n = omega arith in
        (suc n, omega (arith, l), m ∙ ap (λ j. candidate decimal j) shift, (e, u), f)

    first_free-IsFirstFree :
        (count i : ℕ) → IsFirstFree count i (first_free parse_cidr decimal peers count i)
    unfolding first_free
    first_free-IsFirstFree zero i = tt
    first_free-IsFirstFree (suc count) i =
        elim (Bool-cases (is_used parse_cidr peers (candidate decimal i))) [
          | inl e ↦ rw e (
              IsFirstFree-suc count i (first_free parse_cidr decimal peers count (i + 1))
                (is_used-IsTaken (candidate decimal i) peers e)
                (first_free-IsFirstFree count (i + 1)))
          | inr e ↦
              let here : i ≡ i + zero = omega arith in
              rw e (
                zero,
                omega arith,
                ap (λ j. candidate decimal j) here,
                tt,
                λ t. absurd (ground (arith, e, IsTaken-is_used (candidate decimal i) peers t)),
              )
        ]

    -- If the table can be read, a new peer gets the lowest address from 10.10.0.2 to 10.10.0.253 that
    -- neither a row of the table nor the router itself has, and there is an error exactly if all of
    -- them are taken. If the table cannot be read there is an error.
    pub allocate_ip-IsFirstFree :
        IsFirstFree 252 2 (allocate_ip parse_cidr decimal true peers)
        × (allocate_ip parse_cidr decimal false peers ≡ none)
    unfolding allocate_ip
    allocate_ip-IsFirstFree = (first_free-IsFirstFree 252 2, refl)

module _ (trim_space : Bytes → Bytes) (parse_cidr : Bytes → Option Bytes) (apply : Peers → Bool)
    (decimal : ℕ → Bytes) where
  -- A new peer with a valid key is given the lowest free address, with "/32" behind it, but if the
  -- active bundle, not the bootstrap's, has no child with its key, the synchronisation at the end of
  -- the same call deletes its row again.
  pub add_peer-allocate_ip :
      (b : Bundle) (key mac comment ip host : Bytes) (peers : Peers)
      → is_bootstrap b ≡ false
      → has_key key b.children ≡ false
      → is_wireguard_key trim_space key ≡ true
      → ip_of key peers ≡ none
      → allocate_ip parse_cidr decimal true peers ≡ some ip
      → parse_cidr (normalize_allowed_ip trim_space (ip ++ bytes "/32")) ≡ some host
      → ((add_peer trim_space parse_cidr apply decimal true (some b) key mac comment peers).1
          ≡ some (ip ++ bytes "/32"))
        × (ip_of key
              (add_peer trim_space parse_cidr apply decimal true (some b) key mac comment peers).0
            ≡ none)
  unfolding add_peer upsert_peer sync
  add_peer-allocate_ip b key mac comment ip host peers h k v n a c =
      let row : PeerConfig = record {
        public_key = key;
        allowed_ip = normalize_allowed_ip trim_space (ip ++ bytes "/32");
        device_mac = mac;
        comment = comment;
      } in
      let after = upsert_children trim_space parse_cidr b.children (replace_peer row peers) in
      (
        ground (arith, v, n, a, c),
        ground (arith, h, k, v, n, a, c, ip_of-drop_orphans key b.children after),
      )
