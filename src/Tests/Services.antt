-- ===== src/Tests/Services.antt =====
-- internal/sniproxy, internal/firewall and internal/localclock on small inputs.
use safeswitch_router.Common.{
  ℕ, ◌≤◌, ◌≡◌, refl, Bool, true, false, not, Option, none, some, List, [], ◌∷◌, ◌++◌, map, arith,
  Bytes, bytes, ltb, same, if◌then◌else◌, ◌⊎◌,
}
use safeswitch_router.Dns.Blocklist.{new_blocklist}
use safeswitch_router.Dns.Resolver.{PolicyReader}
use safeswitch_router.Common.Text.{join}
use safeswitch_router.Dns.Resolver.Answers.{Holds, Forwards, outcome, events_for}
use safeswitch_router.Sniproxy.{Server, passed, alerted, record_len, decide, handle}
use safeswitch_router.Sniproxy.Decisions.{decide-resolve, handle-oversized}
use safeswitch_router.Firewall.{Args, build_rules, from_args, to_args, chain_flush_args}
use safeswitch_router.Firewall.Enforcer.{Child, Enforcer, resolve_state, sync}
use safeswitch_router.Firewall.Rules.{opens, build_rules-resolve_state}
use safeswitch_router.Firewall.Syncs.{wanted_rules, sync-wanted_rules}
use safeswitch_router.Common.Dict.{Dict, lookup, insert}
use safeswitch_router.Localclock.{
  Config, DueRow, Calls, since, last_of, recompute_due, tick, forced, tick-forced,
}
use safeswitch_router.Tests.Wire.{query, labels, labels-IsLabel, question, parsed, parse_query_run}

abbrev unicode : Bytes → Bytes
unicode s = s

abbrev exchange : Bytes → Bytes → Option Bytes
exchange upstream q = some (1 ∷ [])

abbrev ip : Bytes
ip = bytes "10.10.0.7"

-- No device is paused, and all have the category "games".
abbrev policy : PolicyReader
policy = record {
  internet_paused_for_ip = λ ip. false;
  blocked_categories_for_ip = λ ip. bytes "games" ∷ [];
}

abbrev server : Server
server = record { blocklist = new_blocklist; policy = some policy }

decide-resolve_example :
    (((decide unicode server (bytes "a.com") ip).0 ≡ alerted)
      × Holds 5 query question labels
          (events_for unicode exchange 5 new_blocklist (some policy) query ip question)
          (outcome unicode exchange 5 new_blocklist (some policy) query ip))
    ⊎ (((decide unicode server (bytes "a.com") ip).0 ≡ passed)
        × Forwards exchange query (outcome unicode exchange 5 new_blocklist (some policy) query ip))
unfolding join
decide-resolve_example =
    decide-resolve unicode exchange 5 new_blocklist (some policy) query ip parsed question [] labels
      (omega arith) parse_query_run refl labels-IsLabel (omega arith) refl (omega arith)
      (omega arith)

-- The head of a handshake record of 16380 bytes.
abbrev head : Bytes
head = 0x16 ∷ 3 ∷ 1 ∷ 63 ∷ 252 ∷ []

abbrev peek : ℕ → Option Bytes
peek n = if ltb 16384 n then none else some head

handle-oversized_example : handle unicode (λ full. bytes "a.com") peek server ip ≡ (passed, [])
unfolding record_len
handle-oversized_example =
    handle-oversized unicode (λ full. bytes "a.com") peek server ip head (λ n h. ground (arith, h))
      refl refl refl (omega arith) (omega arith)

abbrev child : Child
child = record {
  device_id = bytes "d1";
  child_id = bytes "c1";
  device_mac = bytes "aa:bb";
  wireguard_public_key = bytes "k";
  wireguard_ip = ip;
  display_name = bytes "tablet";
  paused = true;
  route_mode = [];
}

abbrev enforcer : Enforcer
enforcer = record { route_profile = none; dev_mode = false; bundle_provider = some (child ∷ []) }

abbrev peer_ip : Bytes → Option Bytes
peer_ip key = none

-- No check finds its rule, and all else succeeds.
abbrev succeeds : List Args → Args → Bool
succeeds log args = elim args [ [] ↦ false | a ∷ rest ↦ not (same a (bytes "-C")) ]

build_rules-resolve_state_example :
    (before : List Args) × (map
        (λ rule. rule.args)
        (build_rules ip (resolve_state enforcer child)).rules
      ≡ before
        ++ from_args ip
            (if opens (resolve_state enforcer child) then bytes "ACCEPT" else bytes "DROP")
          ∷ to_args ip
              (if opens (resolve_state enforcer child) then bytes "ACCEPT" else bytes "DROP")
          ∷ [])
build_rules-resolve_state_example = build_rules-resolve_state enforcer child ip

sync-wanted_rules_example :
    (ran : List Args) × (sync peer_ip (bytes "eth0") succeeds enforcer (child ∷ []) []
      ≡ ([] ++ (ran ++ chain_flush_args ∷ wanted_rules peer_ip enforcer (child ∷ [])), true))
unfolding same
sync-wanted_rules_example =
    sync-wanted_rules peer_ip (bytes "eth0") succeeds enforcer (child ∷ []) [] refl (λ before. refl)

abbrev config : Config
config = record { tick_interval = 1; look_back = 120; per_child_debounce = 30 }

-- Listed twice in one answer, and recomputed before at the time 60.
abbrev due : List DueRow
due =
    record { due_child = bytes "c1"; next_change = 90 }
    ∷ record { due_child = bytes "c1"; next_change = 95 }
    ∷ []

abbrev hits : Dict ℕ
hits = (bytes "c1", 60) ∷ []

abbrev recompute : Calls → Bytes → Bool
recompute calls _ = true

tick_run : (tick recompute config 100 (some due) hits).1 ≡ (bytes "c1", true) ∷ []
unfolding tick recompute_due since last_of lookup insert same
tick_run = refl

tick-forced_example :
    ((forced (bytes "c1") (tick recompute config 100 (some due) hits).1 ≡ 0)
      × (lookup (bytes "c1") (tick recompute config 100 (some due) hits).0
          ≡ lookup (bytes "c1") hits))
    ⊎ ((forced (bytes "c1") (tick recompute config 100 (some due) hits).1 ≡ 1)
        × (lookup (bytes "c1") (tick recompute config 100 (some due) hits).0 ≡ some 100)
        × (config.per_child_debounce ≤ since 100 (last_of (bytes "c1") hits)))
tick-forced_example = tick-forced recompute config 100 (bytes "c1") due hits (omega arith)
