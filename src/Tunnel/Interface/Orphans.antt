-- ===== src/Tunnel/Interface/Orphans.antt =====
-- The last commands of a difference in internal/tunnel/wgconf.go.
use safeswitch_router.Common.{
  ◌≡◌, ap, Bool, true, none, List, [], ◌∷◌, arith, Bytes, same, same_iff, if◌then◌else◌, Bool-cases,
  inl, inr,
}
use safeswitch_router.Common.Dict.{is_some, lookup}
use safeswitch_router.Tunnel.{PeerConfig}
use safeswitch_router.Tunnel.Interface.{Live, WgCommand, unset_peer, is_desired, remove_orphans}
use safeswitch_router.Tunnel.Interface.Passes.{run_all}

module _ (trim_space : Bytes → Bytes) (succeeds : WgCommand → Bool) (run : WgCommand → Live → Live)
    (runs_unset : (key j : Bytes) (table : Live)
      → lookup j (run (unset_peer key) table) ≡ (if same key j then none else lookup j table))
    (all : (c : WgCommand) → succeeds c ≡ true) where
  -- The peers that nobody desires are gone.
  pub remove_orphans-is_desired :
      (j : Bytes) (desired : List PeerConfig) (live table : Live)
      → lookup j (run_all run (remove_orphans trim_space succeeds desired live).0 table) ≡ (
          if is_desired j desired
          then lookup j table
          else if is_some (lookup j live)
          then none
          else lookup j table)
  unfolding remove_orphans run_all lookup
  remove_orphans-is_desired j desired [] table = ground arith
  remove_orphans-is_desired j desired ((key, ip) ∷ live) table = elim (Bool-cases (same key j)) [
    | inl m ↦
        let e : key ≡ j = ground (arith, m, same_iff key j) in
        ground (
          arith,
          m,
          all (unset_peer key),
          ap (λ x. is_desired x desired) e,
          runs_unset key j table,
          remove_orphans-is_desired j desired live table,
          remove_orphans-is_desired j desired live (run (unset_peer key) table),
        )
    | inr m ↦ ground (
      arith,
      m,
      all (unset_peer key),
      runs_unset key j table,
      remove_orphans-is_desired j desired live table,
      remove_orphans-is_desired j desired live (run (unset_peer key) table),
    )
  ]
