-- ===== src/Tests/Nodes.antt =====
-- What a node does with the cloud's answers: bundles, commands and heartbeats on small inputs.
use safeswitch_router.Common.{
  ℕ, zero, suc, ◌+◌, ◌≡◌, ◌⊎◌, refl, Bool, true, false, not, ◌&&◌, ◌||◌, Option, none, some, List,
  [], ◌∷◌, arith, Bytes, bytes, any, if◌then◌else◌, same, Bool-cases, inl, inr,
}
use mathlib.Core.List.{Permᴰ}
use safeswitch_router.Common.Json.{no_fields}
use safeswitch_router.Common.Dict.{Dict, lookup, has, keyed}
use safeswitch_router.Policy.{Bundle, Runtime}
use safeswitch_router.Commands.{Command, Row, Ledger, Status, Handler, result, pending_commands}
use safeswitch_router.Commands.Runs.{panics_on}
use safeswitch_router.Controlsync.Client.{Reply}
use safeswitch_router.Controlsync.Bundles.{
  SyncRow, row_key, EnforcementState, cools, fetch_bundle, poll_and_enforce,
}
use safeswitch_router.Controlsync.Bundles.Fetches.{
  IsFirstGood, IsLetIn, Takes, IsUnchanged, fetch_bundle-cases,
}
use safeswitch_router.Controlsync.Bundles.Enforcements.{
  is_keyed, is_recent, poll_and_enforce-fetches,
}
use safeswitch_router.Controlsync.Polling.{drain_pending}
use safeswitch_router.Controlsync.Polling.Drains.{AllReported, drain_pending-AllReported}
use safeswitch_router.Controlsync.Heartbeat.Messages.{Node}
use safeswitch_router.Controlsync.Heartbeat.{TunnelConfig}

abbrev bundle : Bundle
bundle = record {
  version = bytes "v1";
  issued_at = 1;
  expires_at = 9;
  signature = [];
  emergency_domains = [];
  children = [];
}

abbrev runtime : Runtime
runtime = record { row = none; active = some bundle; on_swap = false }

abbrev newer : Bundle
newer = record bundle { version = bytes "v2" }

abbrev marshal : Bundle → Option Bytes
marshal b = some b.version

abbrev decode : Bytes → Option Bundle
decode body = some newer

abbrev replies : ℕ → Option Reply
replies zero = none
replies (suc i) = some (record { body = []; status = 200; headers = none })

fetch_bundle-cases_example :
    IsUnchanged marshal
      (bytes "home_node")
      true
      runtime
      (fetch_bundle marshal (bytes "home_node") true decode replies true 5 runtime)
    ⊎ ((reply : Reply) × (b : Bundle) × IsFirstGood replies 0 3 reply
        × (decode reply.body ≡ some b)
        × IsLetIn marshal (bytes "home_node") true 5 runtime b
        × Takes marshal
            (bytes "home_node")
            true
            runtime
            b
            (fetch_bundle marshal (bytes "home_node") true decode replies true 5 runtime))
fetch_bundle-cases_example =
    fetch_bundle-cases marshal (bytes "home_node") true decode replies true 5 runtime

-- A row whose key was not seen, within two seconds of the last bundle.
abbrev rows : List SyncRow
rows = record { id = bytes "1"; dedupe_key = [] } ∷ []

abbrev cooling : EnforcementState
cooling = record { dedupe = []; last_bundle_apply = some 1_000_000_000 }

abbrev polled : EnforcementState × Bool
polled = poll_and_enforce 2_000_000_000 2_000_000_000 2_000_000_001 rows cooling

poll_and_enforce-fetches_example :
    (polled.1 ≡ (
      any (λ row. not (is_recent 2_000_000_000 (lookup (row_key row) []))) rows
      && not (cools 2_000_000_000 (some 1_000_000_000))))
    × ((k : Bytes)
        → has k polled.0.dedupe ≡ (is_keyed k rows || is_recent 2_000_000_000 (lookup k [])))
    × (keyed polled.0.dedupe ≡ true)
    × (polled.0.last_bundle_apply ≡ (if polled.1 then some 2_000_000_001 else some 1_000_000_000))
poll_and_enforce-fetches_example =
    poll_and_enforce-fetches 2_000_000_000 2_000_000_000 2_000_000_001 rows cooling refl
      (omega arith)

-- Two pending commands: the handler of the first counts, the second has none.
abbrev row_of : Bytes → Row
row_of kind = record {
  kind = kind;
  status = Status.pending;
  payload_json = no_fields;
  result_json = no_fields;
  error_text = [];
}

abbrev ledger : Ledger
ledger = (bytes "c1", row_of (bytes "ping")) ∷ (bytes "c2", row_of (bytes "reboot")) ∷ []

abbrev ping : Handler ℕ
ping payload n = (n + 1, result none)

abbrev handlers : Dict (Handler ℕ)
handlers = (bytes "ping", ping) ∷ []

calm : (cmd : Command) (w : ℕ) → panics_on handlers cmd w ≡ false
unfolding lookup
calm cmd w = elim (Bool-cases (same (bytes "ping") cmd.command_type)) [
  | inl m ↦ ground (arith, m)
  | inr m ↦ ground (arith, m)
]

-- The second one runs first.
abbrev backwards : List Command → List Command
backwards (a ∷ b ∷ cmds) = b ∷ a ∷ cmds
backwards cmds = cmds

drain_pending-AllReported_example :
    AllReported
      (λ s. s)
      handlers
      (λ status. true)
      (λ status. refl)
      calm
      (drain_pending (λ s. s) handlers (λ status. true) backwards true (ledger, 0)).0.0
      (backwards (pending_commands ledger))
      (drain_pending (λ s. s) handlers (λ status. true) backwards true (ledger, 0)).1
unfolding pending_commands
drain_pending-AllReported_example =
    drain_pending-AllReported (λ s. s) handlers (λ status. true) (λ status. refl) calm backwards
      (ledger, 0) (Permᴰ.swap refl refl)

abbrev node : Node
node = record {
  node_id = bytes "n";
  node_name = bytes "nas";
  version = bytes "1";
  node_type = bytes "home_node";
  is_lan_local = true;
  public_endpoint = [];
  snapshot = none;
  tunnel_peers = 0;
  device_count = 0;
}

abbrev scan_int : Bytes → ℕ
scan_int s = 0

abbrev config : TunnelConfig
config = (bytes "family_id", bytes "f1") ∷ []
