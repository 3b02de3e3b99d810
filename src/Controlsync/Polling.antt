-- ===== src/Controlsync/Polling.antt =====
-- internal/controlsync/commandpoll.go: the commands of the cloud, taken into the ledger of
-- internal/commands, acknowledged, executed and reported. The replies, `encoding/json` and which
-- statements of SQLite succeed are parameters. The goroutines of a drain, at most eight at once, run
-- here one after the other, in an order that is a parameter, `schedule`; their statements do not
-- interleave.
pub mod Takes
pub mod Drains
use safeswitch_router.Common.{
  ℕ, Bool, true, false, not, ◌&&◌, ◌||◌, Option, none, some, List, [], ◌∷◌, Bytes, bytes, leb, same,
  if◌then◌else◌,
}
use safeswitch_router.Common.Json.{Fields, no_fields}
use safeswitch_router.Common.Dict.{Dict, lookup, has}
use safeswitch_router.Commands.{
  Status, done, Command, Row, Ledger, Handler, enqueue, pending_commands, execute,
}
use safeswitch_router.Controlsync.Client.{Reply}

pub record CloudCommand : Type 0 where
  pub id : Bytes
  pub command_type : Bytes
  pub payload : Fields
  pub status : Bytes

-- Which statements succeed, by the command's id.
module _ (queries inserts : Bytes → Bool) where
  unfoldable pub command_exists : Bytes → Ledger → Bool
  command_exists id ledger = queries id && has id ledger

  -- The ledger behind, and the ids that are acknowledged.
  unfoldable pub take_commands : List CloudCommand → Ledger → Ledger × List Bytes
  take_commands [] ledger = (ledger, [])
  take_commands (c ∷ cmds) ledger =
      let cmd : Command = record {
        id = c.id;
        command_type = c.command_type;
        payload = c.payload;
      } in
      let taken = not (command_exists c.id ledger) && inserts c.id in
      let rest = take_commands cmds (if taken then enqueue cmd ledger else ledger) in
      (rest.0, if taken then c.id ∷ rest.1 else rest.1)

  unfoldable pub fetch_and_enqueue :
      (Bytes → Option (List CloudCommand)) → Option Reply → Ledger → Ledger × List Bytes
  fetch_and_enqueue decode none ledger = (ledger, [])
  fetch_and_enqueue decode (some reply) ledger = elim (decode reply.body) [
    | none ↦ (ledger, [])
    | some cmds ↦ take_commands cmds ledger
  ]

-- What is sent for a command that was executed.
pub record ResultReport : Type 0 where
  pub id : Bytes
  pub success : Bool
  pub result_json : Fields
  pub error_text : Bytes

abbrev pub is_done : Status → Bool
is_done done = true
is_done _ = false

-- From the row of the ledger; without one the texts are empty.
unfoldable pub report_result : Bytes → Ledger → ResultReport
report_result id ledger = elim (lookup id ledger) [
  | none ↦ record { id = id; success = false; result_json = no_fields; error_text = [] }
  | some row ↦ record {
    id = id;
    success = is_done row.status;
    result_json = row.result_json;
    error_text = row.error_text;
  }
]

module _ {W : Type 0} (quote : Bytes → Bytes) (handlers : Dict (Handler W))
    (writes : Status → Bool) where
  unfoldable pub drain_commands : List Command → Ledger × W → (Ledger × W) × List ResultReport
  drain_commands [] s = (s, [])
  drain_commands (cmd ∷ cmds) s =
      let ran = execute quote handlers writes cmd s in
      let rest = drain_commands cmds ran in (rest.0, report_result cmd.id ran.0 ∷ rest.1)

  unfoldable pub drain_pending :
      (List Command → List Command) → Bool → Ledger × W → (Ledger × W) × List ResultReport
  drain_pending schedule lists s =
      if lists then drain_commands (schedule (pending_commands s.0)) s else (s, [])
