-- ===== src/Firewall/Syncs.antt =====
-- Which commands internal/firewall/enforcer.go runs, and in which order.
use safeswitch_router.Common.{
  ◌≡◌, ap, ◌∙◌, Bool, true, false, Option, List, [], ◌∷◌, ◌++◌, map, append_assoc, append-nil,
  arith, Bytes, bytes, length, ◌==◌, same, if◌then◌else◌,
}
use safeswitch_router.Firewall.{
  Args, build_rules, from_args, to_args, ensure_forward_jump, insert_forward_jump,
  chain_ensure_args, chain_flush_args,
}
use safeswitch_router.Firewall.Enforcer.{
  Child, Enforcer, resolve_ip, resolve_state, ensure_rules, sync_children, sync, pause_device,
}

module _ (peer_ip : Bytes → Option Bytes) where
  -- The rules of all children that have an address, in the bundle's order.
  abbrev pub wanted_rules : Enforcer → List Child → List Args
  wanted_rules e [] = []
  wanted_rules e (child ∷ children) =
      (if length (resolve_ip peer_ip child) == 0
        then []
        else map (λ rule. rule.args)
            (build_rules (resolve_ip peer_ip child) (resolve_state e child)).rules)
      ++ wanted_rules e children

  module _ (iface : Bytes) (succeeds : List Args → Args → Bool) where
    sync_children-wanted_rules :
        (e : Enforcer) (children : List Child) (log : List Args)
        → sync_children peer_ip iface succeeds e children log ≡ log ++ wanted_rules e children
    unfolding sync_children
    sync_children-wanted_rules e [] log = simp append-nil
    sync_children-wanted_rules e (child ∷ children) log =
        let rules =
          map (λ rule. rule.args)
            (build_rules (resolve_ip peer_ip child) (resolve_state e child)).rules in
        ground (
          arith,
          sync_children-wanted_rules e children log,
          sync_children-wanted_rules e children (log ++ rules),
          append_assoc log rules (wanted_rules e children),
        )

    ensure_rules-append :
        (checks log : List Args)
        → (ran : List Args) × (ensure_rules peer_ip iface succeeds checks log ≡ log ++ ran)
    unfolding ensure_rules
    ensure_rules-append [] log = ([], simp append-nil)
    ensure_rules-append (check ∷ checks) log =
        elim (succeeds log check)
          as (λ b.
            (ran : List Args) × (ensure_rules peer_ip iface succeeds checks
                (if b then log ++ check ∷ [] else log ++ check ∷ insert_forward_jump check ∷ [])
              ≡ log ++ ran)) [
                | true ↦
                    let (ran, e) = ensure_rules-append checks (log ++ check ∷ []) in
                    ((check ∷ []) ++ ran, e ∙ append_assoc log (check ∷ []) ran)
                | false ↦
                    let (ran, e) =
                      ensure_rules-append checks (log ++ check ∷ insert_forward_jump check ∷ []) in
                    (
                      (check ∷ insert_forward_jump check ∷ []) ++ ran,
                      e ∙ append_assoc log (check ∷ insert_forward_jump check ∷ []) ran,
                    )
              ]

    sync-flushed :
        (e : Enforcer) (children : List Child) (log : List Args)
        → e.dev_mode ≡ false
        → succeeds
            (ensure_rules peer_ip iface succeeds
              (ensure_forward_jump iface)
              (log ++ chain_ensure_args ∷ []))
            chain_flush_args
          ≡ true
        → sync peer_ip iface succeeds e children log ≡ (
          sync_children peer_ip iface succeeds e children (
              ensure_rules peer_ip iface succeeds
                (ensure_forward_jump iface)
                (log ++ chain_ensure_args ∷ [])
              ++ chain_flush_args ∷ []),
          true,
        )
    unfolding sync
    sync-flushed e children log dev flush = ground (arith, dev, flush)

    -- Outside of the developer's mode, a synchronisation whose flush of the chain succeeds reports no
    -- error, keeps what was run before, and behind the last flush runs exactly the rules of the
    -- children that have an address, in the bundle's order.
    pub sync-wanted_rules :
        (e : Enforcer) (children : List Child) (log : List Args)
        → e.dev_mode ≡ false
        → ((before : List Args) → succeeds before chain_flush_args ≡ true)
        → (ran : List Args) × (sync peer_ip iface succeeds e children log
            ≡ (log ++ (ran ++ chain_flush_args ∷ wanted_rules e children), true))
    sync-wanted_rules e children log dev flush =
        let start = log ++ chain_ensure_args ∷ [] in
        let ensured = ensure_rules peer_ip iface succeeds (ensure_forward_jump iface) start in
        let (ran, kept) = ensure_rules-append (ensure_forward_jump iface) start in
        let wanted = wanted_rules e children in
        let end : ensured ++ chain_flush_args ∷ wanted
            ≡ log ++ ((chain_ensure_args ∷ ran) ++ chain_flush_args ∷ wanted) =
          ap (λ l. l ++ chain_flush_args ∷ wanted)
            (kept ∙ append_assoc log (chain_ensure_args ∷ []) ran)
          ∙ append_assoc log (chain_ensure_args ∷ ran) (chain_flush_args ∷ wanted) in
        (
          chain_ensure_args ∷ ran,
          sync-flushed e children log dev (flush ensured)
              ∙ ap (λ l. (l, true))
                  (sync_children-wanted_rules e children (ensured ++ chain_flush_args ∷ [])
                    ∙ append_assoc ensured (chain_flush_args ∷ []) wanted
                    ∙ end),
        )

    -- Outside of the developer's mode, to pause a device appends its two rules that drop behind all
    -- that was run before, and flushes nothing.
    pub pause_device-appends :
        (e : Enforcer) (mac : Bytes) (log : List Args)
        → e.dev_mode ≡ false
        → (ran : List Args) × (pause_device peer_ip iface succeeds e mac log ≡ (
          log ++ (ran ++ from_args mac (bytes "DROP") ∷ to_args mac (bytes "DROP") ∷ []),
          true,
        ))
    unfolding pause_device build_rules
    pause_device-appends e mac log dev =
        let start = log ++ chain_ensure_args ∷ [] in
        let (ran, kept) = ensure_rules-append (ensure_forward_jump iface) start in
        let rules = from_args mac (bytes "DROP") ∷ to_args mac (bytes "DROP") ∷ [] in
        (
          chain_ensure_args ∷ ran,
          unfold same in
              ground (
                arith,
                dev,
                ap (λ l. l ++ rules) (kept ∙ append_assoc log (chain_ensure_args ∷ []) ran)
                    ∙ append_assoc log (chain_ensure_args ∷ ran) rules,
              ),
        )
