-- ===== src/Tunnel/Interface/Passes.antt =====
-- What one desired peer of internal/tunnel/wgconf.go does to the interface. `run` is the interface: the
-- table of its peers with their addresses behind a command.
use safeswitch_router.Common.{
  ◌≡◌, refl, ap, Bool, true, false, not, ◌&&◌, Option, none, some, List, [], ◌∷◌, ◌++◌, arith,
  Bytes, same, same_refl, same_iff, if◌then◌else◌, Bool-cases, Option-cases, ◌⊎◌, inl, inr,
}
use safeswitch_router.Common.Dict.{lookup, delete, keyed, keyed-delete, lookup-delete}
use safeswitch_router.Tunnel.{PeerConfig, normalize_allowed_ip}
use safeswitch_router.Tunnel.Interface.{
  Live, WgCommand, set_peer, unset_peer, Pass, holder, free_ip, is_unchanged, sync_peer,
}

-- Is this the address?
abbrev pub is_held : Bytes → Option Bytes → Bool
is_held ip none = false
is_held ip (some w) = same w ip

lookup-holder :
    (key ip old : Bytes) (live : Live)
    → keyed live ≡ true
    → holder key ip live ≡ some old
    → (lookup old live ≡ some ip) × (same old key ≡ false)
unfolding holder lookup
lookup-holder key ip old [] k h = absurd (ground (arith, h))
lookup-holder key ip old ((j, w) ∷ live) k h = elim (Bool-cases (same w ip && not (same j key))) [
  | inl e ↦
      let m : j ≡ old = ground (arith, e, h) in
      (
        ground (arith, e, m, same_refl old, same_iff w ip),
        ground (arith, e, m, ap (λ x. same x key) m),
      )
  | inr e ↦
      let (here, apart) =
        lookup-holder key ip old live (ground (arith, k)) (ground (arith, e, h)) in
      (
        elim (Bool-cases (same j old)) [
          | inl m ↦
              let n : j ≡ old = ground (arith, m, same_iff j old) in
              absurd (ground (arith, k, here, ap (λ x. lookup x live) n))
          | inr m ↦ ground (arith, here, m)
        ],
        apart,
      )
]

-- The interface behind a list of commands.
unfoldable pub run_all : (WgCommand → Live → Live) → List WgCommand → Live → Live
run_all run [] table = table
run_all run (c ∷ log) table = run_all run log (run c table)

pub run_all-append :
    (run : WgCommand → Live → Live) (log rest : List WgCommand) (table : Live)
    → run_all run (log ++ rest) table ≡ run_all run rest (run_all run log table)
unfolding run_all
run_all-append run [] rest table = refl
run_all-append run (c ∷ log) rest table = run_all-append run log rest (run c table)

abbrev pub address : (Bytes → Bytes) → PeerConfig → Bytes
address trim_space p = normalize_allowed_ip trim_space p.allowed_ip

module _ (trim_space : Bytes → Bytes) (succeeds : WgCommand → Bool) where
  -- The three ways of a pass in which no command fails.
  sync_peer-cases :
      (p : PeerConfig) (live : Live)
      → keyed live ≡ true
      → ((c : WgCommand) → succeeds c ≡ true)
      → ((lookup p.public_key live ≡ some (address trim_space p))
          × (sync_peer trim_space succeeds p live ≡ record { live = live; log = []; is_ok = true }))
        ⊎ ((sync_peer trim_space succeeds p live ≡ record {
          live = live;
          log = set_peer p.public_key (address trim_space p) ∷ [];
          is_ok = true;
        })
            ⊎ ((old : Bytes) × (lookup old live ≡ some (address trim_space p))
                × (same old p.public_key ≡ false)
                × (sync_peer trim_space succeeds p live ≡ record {
                  live = delete old live;
                  log = unset_peer old ∷ set_peer p.public_key (address trim_space p) ∷ [];
                  is_ok = true;
                })))
  unfolding sync_peer free_ip
  sync_peer-cases p live k all = elim (Bool-cases (is_unchanged trim_space succeeds p live)) [
    | inl e ↦ inl (
      (elim (Option-cases (lookup p.public_key live)) [
        | inl n ↦ absurd (ground (arith, e, n))
        | inr (ip, n) ↦ ground (arith, e, n, same_iff ip (address trim_space p))
      ]),
      ground (arith, e),
    )
    | inr e ↦ elim (Option-cases (holder p.public_key (address trim_space p) live)) [
      | inl f ↦ inr (inl (ground (arith, e, f, all (set_peer p.public_key (address trim_space p)))))
      | inr (old, f) ↦
          let (here, apart) = lookup-holder p.public_key (address trim_space p) old live k f in
          inr (
            inr (
              old,
              here,
              apart,
              ground (
                arith,
                e,
                f,
                all (set_peer p.public_key (address trim_space p)),
                all (unset_peer old),
              ),
            ))
    ]
  ]

  module _ (run : WgCommand → Live → Live)
      (runs_set : (key ip j : Bytes) (table : Live)
        → lookup j (run (set_peer key ip) table) ≡ (
            if same key j
            then some ip
            else if is_held ip (lookup j table)
            then none
            else lookup j table))
      (runs_unset : (key j : Bytes) (table : Live)
        → lookup j (run (unset_peer key) table) ≡ (if same key j then none else lookup j table))
      (all : (c : WgCommand) → succeeds c ≡ true) where
    abbrev pub one_pass : PeerConfig → Live → Pass
    one_pass p live = sync_peer trim_space succeeds p live

    pub sync_peer-own :
        (p : PeerConfig) (live : Live)
        → keyed live ≡ true
        → lookup p.public_key (one_pass p live).live ≡ lookup p.public_key live
    sync_peer-own p live k = elim (sync_peer-cases p live k all) [
      | inl (_, e) ↦ ground (arith, e)
      | inr (inl e) ↦ ground (arith, e)
      | inr (inr (old, _, n, e)) ↦ ground (arith, e, n, lookup-delete old p.public_key live)
    ]

    pub sync_peer-keyed :
        (p : PeerConfig) (live : Live)
        → keyed live ≡ true
        → (keyed (one_pass p live).live ≡ true) × ((one_pass p live).is_ok ≡ true)
    sync_peer-keyed p live k = elim (sync_peer-cases p live k all) [
      | inl (_, e) ↦ (ground (arith, e, k), ground (arith, e))
      | inr (inl e) ↦ (ground (arith, e, k), ground (arith, e))
      | inr (inr (old, _, _, e)) ↦ (ground (arith, e, keyed-delete old live k), ground (arith, e))
    ]

    -- The peer has its address behind, if the map was right about it.
    pub sync_peer-set :
        (p : PeerConfig) (live table : Live)
        → keyed live ≡ true
        → lookup p.public_key table ≡ lookup p.public_key live
        → lookup p.public_key (run_all run (one_pass p live).log table)
          ≡ some (address trim_space p)
    unfolding run_all
    sync_peer-set p live table k h =
        let ip = address trim_space p in
        let key = p.public_key in
        elim (sync_peer-cases p live k all) [
          | inl (here, e) ↦ ground (arith, e, h, here)
          | inr (inl e) ↦ ground (arith, e, same_refl key, runs_set key ip key table)
          | inr (inr (old, _, _, e)) ↦
              ground (arith, e, same_refl key, runs_set key ip key (run (unset_peer old) table))
        ]

    -- A peer that does not hold the address is left alone.
    pub sync_peer-kept :
        (p : PeerConfig) (j : Bytes) (live table : Live)
        → keyed live ≡ true
        → same p.public_key j ≡ false
        → is_held (address trim_space p) (lookup j live) ≡ false
        → is_held (address trim_space p) (lookup j table) ≡ false
        → (lookup j (one_pass p live).live ≡ lookup j live)
          × (lookup j (run_all run (one_pass p live).log table) ≡ lookup j table)
    unfolding run_all
    sync_peer-kept p j live table k n l t =
        let ip = address trim_space p in
        let key = p.public_key in
        elim (sync_peer-cases p live k all) [
          | inl (_, e) ↦ (ground (arith, e), ground (arith, e))
          | inr (inl e) ↦ (ground (arith, e), ground (arith, e, n, t, runs_set key ip j table))
          | inr (inr (old, here, _, e)) ↦ elim (Bool-cases (same old j)) [
            | inl m ↦
                let o : old ≡ j = ground (arith, m, same_iff old j) in
                absurd (ground (arith, here, l, same_refl ip, ap (λ x. lookup x live) o))
            | inr m ↦ (
              ground (arith, e, m, lookup-delete old j live),
              ground (
                arith,
                e,
                m,
                n,
                t,
                runs_set key ip j (run (unset_peer old) table),
                runs_unset old j table,
              ),
            )
          ]
        ]

    -- What the map does not have the interface does not get.
    pub sync_peer-absent :
        (p : PeerConfig) (j : Bytes) (live table : Live)
        → keyed live ≡ true
        → same p.public_key j ≡ false
        → (lookup j live ≡ none → lookup j table ≡ none)
        → lookup j (one_pass p live).live ≡ none
        → lookup j (run_all run (one_pass p live).log table) ≡ none
    unfolding run_all
    sync_peer-absent p j live table k n h a =
        let ip = address trim_space p in
        let key = p.public_key in
        elim (sync_peer-cases p live k all) [
          | inl (_, e) ↦ ground (arith, e, a, h)
          | inr (inl e) ↦ ground (arith, e, a, h, n, runs_set key ip j table)
          | inr (inr (old, _, _, e)) ↦ ground (
            arith,
            e,
            a,
            h,
            n,
            lookup-delete old j live,
            runs_set key ip j (run (unset_peer old) table),
            runs_unset old j table,
          )
        ]
