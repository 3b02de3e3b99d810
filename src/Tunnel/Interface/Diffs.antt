-- ===== src/Tunnel/Interface/Diffs.antt =====
-- What the commands of a whole difference in internal/tunnel/wgconf.go do to the interface.
use safeswitch_router.Common.{
  ◌≡◌, refl, sym, ap, ◌∙◌, Bool, true, false, not, none, some, List, [], ◌∷◌, arith, any, Bytes,
  same, same_iff, if◌then◌else◌, Bool-cases, inl, inr,
}
use safeswitch_router.Common.Dict.{lookup, keyed}
use safeswitch_router.Tunnel.{PeerConfig}
use safeswitch_router.Tunnel.Interface.{
  Live, WgCommand, set_peer, unset_peer, Pass, sync_peer, sync_desired, is_desired, remove_orphans,
  sync_peers_diff,
}
use safeswitch_router.Tunnel.Interface.Passes.{
  is_held, run_all, run_all-append, sync_peer-own, sync_peer-keyed, sync_peer-set, sync_peer-kept,
  sync_peer-absent,
}
use safeswitch_router.Tunnel.Interface.Steady.{
  is_clear, is_clear_congr, AreAgreed, is_clear-are_apart, desired_ip, are_apart, is_steady,
}
use safeswitch_router.Tunnel.Interface.Orphans.{remove_orphans-is_desired}

module _ (trim_space : Bytes → Bytes) where
  module _ (succeeds : WgCommand → Bool) (run : WgCommand → Live → Live)
      (runs_set : (key ip j : Bytes) (table : Live)
        → lookup j (run (set_peer key ip) table) ≡ (
            if same key j
            then some ip
            else if is_held ip (lookup j table)
            then none
            else lookup j table))
      (runs_unset : (key j : Bytes) (table : Live)
        → lookup j (run (unset_peer key) table) ≡ (if same key j then none else lookup j table))
      (all : (c : WgCommand) → succeeds c ≡ true) where
    abbrev passes : List PeerConfig → Live → Pass
    passes desired live = sync_desired trim_space succeeds desired live

    abbrev sent : PeerConfig → Live → Live → Live
    sent p live table = run_all run (sync_peer trim_space succeeds p live).log table

    abbrev left : PeerConfig → Live → Live
    left p live = (sync_peer trim_space succeeds p live).live

    passes-cons :
        (p : PeerConfig) (desired : List PeerConfig) (live table : Live)
        → keyed live ≡ true
        → ((passes (p ∷ desired) live).live ≡ (passes desired (left p live)).live)
          × (run_all run (passes (p ∷ desired) live).log table
              ≡ run_all run (passes desired (left p live)).log (sent p live table))
          × ((passes (p ∷ desired) live).is_ok ≡ (passes desired (left p live)).is_ok)
    unfolding sync_desired
    passes-cons p desired live table k =
        let (_, ok) = sync_peer-keyed trim_space succeeds run runs_set runs_unset all p live k in
        (
          ground (arith, ok),
          ground (
            arith,
            ok,
            run_all-append run (sync_peer trim_space succeeds p live).log
                (passes desired (left p live)).log table,
          ),
          ground (arith, ok),
        )

    left-keyed : (p : PeerConfig) (live : Live) → keyed live ≡ true → keyed (left p live) ≡ true
    left-keyed p live k =
        (sync_peer-keyed trim_space succeeds run runs_set runs_unset all p live k).0

    passes-is_ok :
        (desired : List PeerConfig) (live : Live)
        → keyed live ≡ true
        → (passes desired live).is_ok ≡ true
    unfolding sync_desired
    passes-is_ok [] live k = refl
    passes-is_ok (p ∷ desired) live k =
        (passes-cons p desired live live k).2
        ∙ passes-is_ok desired (left p live) (left-keyed p live k)

    passes-is_clear :
        (j : Bytes) (desired : List PeerConfig) (live table : Live)
        → keyed live ≡ true
        → is_clear trim_space j live table desired ≡ true
        → lookup j (run_all run (passes desired live).log table) ≡ lookup j table
    unfolding sync_desired run_all
    passes-is_clear j [] live table k c = refl
    passes-is_clear j (p ∷ desired) live table k c =
        let (l, t) =
          sync_peer-kept trim_space succeeds run runs_set runs_unset all p j live table k
            (ground (arith, c)) (ground (arith, c)) (ground (arith, c)) in
        ap (λ x. lookup j x) (passes-cons p desired live table k).1
        ∙ passes-is_clear j desired (left p live) (sent p live table) (left-keyed p live k) (
            is_clear_congr trim_space j live (left p live) table (sent p live table) desired l t
            ∙ ground (arith, c))
        ∙ t

    AreAgreed-sent :
        (p : PeerConfig) (origin live table : Live) (desired : List PeerConfig)
        → keyed live ≡ true
        → any (λ q. not (are_apart trim_space origin p q)) desired ≡ false
        → AreAgreed trim_space origin live table desired
        → AreAgreed trim_space origin (left p live) (sent p live table) desired
    AreAgreed-sent p origin live table [] k a v = tt
    AreAgreed-sent p origin live table (q ∷ desired) k a v =
        let ((here, there), rest) = v in
        let (l, t) =
          sync_peer-kept trim_space succeeds run runs_set runs_unset all p q.public_key live table k
            (ground (arith, a)) (ground (arith, a, here)) (ground (arith, a, there)) in
        (
          (l ∙ here, t ∙ there),
          AreAgreed-sent p origin live table desired k (ground (arith, a)) rest,
        )

    -- Each desired peer has its address behind.
    passes-desired_ip :
        (j : Bytes) (origin : Live) (desired : List PeerConfig) (live table : Live)
        → keyed live ≡ true
        → is_steady trim_space origin desired ≡ true
        → AreAgreed trim_space origin live table desired
        → is_desired j desired ≡ true
        → lookup j (run_all run (passes desired live).log table) ≡ desired_ip trim_space j desired
    passes-desired_ip j origin [] live table k s v d = absurd (ground (arith, d))
    passes-desired_ip j origin (p ∷ desired) live table k s v d =
        let ((here, there), rest) = v in
        let step = ap (λ x. lookup j x) (passes-cons p desired live table k).1 in
        elim (Bool-cases (same p.public_key j)) [
          | inl e ↦
              let m : p.public_key ≡ j = ground (arith, e, same_iff p.public_key j) in
              let set =
                sync_peer-set trim_space succeeds run runs_set runs_unset all p live table k
                  (there ∙ sym here) in
              let own = sync_peer-own trim_space succeeds run runs_set runs_unset all p live k in
              let clear =
                is_clear-are_apart trim_space p origin (left p live) (sent p live table) desired
                  (own ∙ here) set (ground (arith, s)) in
              let kept =
                passes-is_clear p.public_key desired (left p live) (sent p live table)
                  (left-keyed p live k) clear in
              step
              ∙ ap
                  (λ x.
                    lookup x (run_all run (passes desired (left p live)).log (sent p live table)))
                  (sym m)
              ∙ kept
              ∙ set
              ∙ ground (arith, e)
          | inr e ↦
              step
              ∙ passes-desired_ip j origin desired (left p live) (sent p live table)
                  (left-keyed p live k) (ground (arith, s))
                  (AreAgreed-sent p origin live table desired k (ground (arith, s)) rest)
                  (ground (arith, d, e))
              ∙ ground (arith, e)
        ]

    -- What the map has not, and nobody desires, the interface has not.
    passes-absent :
        (j : Bytes) (desired : List PeerConfig) (live table : Live)
        → keyed live ≡ true
        → is_desired j desired ≡ false
        → (lookup j live ≡ none → lookup j table ≡ none)
        → lookup j (passes desired live).live ≡ none
        → lookup j (run_all run (passes desired live).log table) ≡ none
    unfolding sync_desired run_all
    passes-absent j [] live table k d h a = h a
    passes-absent j (p ∷ desired) live table k d h a =
        let (l, t, _) = passes-cons p desired live table k in
        ap (λ x. lookup j x) t
        ∙ passes-absent j desired (left p live) (sent p live table) (left-keyed p live k)
            (ground (arith, d))
            (sync_peer-absent trim_space succeeds run runs_set runs_unset all p j live table k
              (ground (arith, d)) h)
            (sym (ap (λ x. lookup j x) l) ∙ a)

    desired_ip-is_desired :
        (j : Bytes) (desired : List PeerConfig)
        → is_desired j desired ≡ false
        → desired_ip trim_space j desired ≡ none
    desired_ip-is_desired j [] h = refl
    desired_ip-is_desired j (p ∷ desired) h = ground (arith, h, desired_ip-is_desired j desired)

    AreAgreed-refl :
        (origin : Live) (desired : List PeerConfig)
        → AreAgreed trim_space origin origin origin desired
    AreAgreed-refl origin [] = tt
    AreAgreed-refl origin (q ∷ desired) = ((refl, refl), AreAgreed-refl origin desired)

    -- If no command fails and no desired peer is live with the address desired for another, the
    -- commands bring the interface to exactly the desired peers, each with its address. The desired
    -- keys and addresses differ, and the interface does what `wg set` is documented to: it gives the
    -- address to the peer and takes it from any other, and it removes the peer.
    pub sync_peers_diff-desired_ip :
        (desired : List PeerConfig) (live : Live) (j : Bytes)
        → keyed live ≡ true
        → is_steady trim_space live desired ≡ true
        → lookup j (run_all run (sync_peers_diff trim_space succeeds desired live).0 live)
          ≡ desired_ip trim_space j desired
    unfolding sync_peers_diff
    sync_peers_diff-desired_ip desired live j k s =
        let first = passes desired live in
        let table = run_all run first.log live in
        let ok = passes-is_ok desired live k in
        let ran =
          run_all-append run first.log (remove_orphans trim_space succeeds desired first.live).0
            live in
        let last =
          remove_orphans-is_desired trim_space succeeds run runs_unset all j desired first.live
            table in
        elim (Bool-cases (is_desired j desired)) [
          | inl d ↦ ground (
            arith,
            ok,
            ran,
            last,
            d,
            passes-desired_ip j live desired live live k s (AreAgreed-refl live desired) d,
          )
          | inr d ↦ ground (
            arith,
            ok,
            ran,
            last,
            d,
            desired_ip-is_desired j desired d,
            passes-absent j desired live live k d (λ a. a),
          )
        ]
