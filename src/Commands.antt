-- ===== src/Commands.antt =====
-- internal/commands/executor.go and pkg/contract/commands/types.go. The table `command_ledger` is a
-- dictionary by id; its times are left out but for the order of insertion. Payloads and results stand
-- there as what their JSON texts denote. The state that handlers
-- change (`W`), Go's `%q` (`quote`) and whether the database takes a write are parameters.
pub mod Runs
pub mod Payloads
pub mod Interfaces
pub mod Handlers
pub mod Profiles
pub mod Overrides
pub mod Policies
pub mod Pauses
pub mod Registration
use safeswitch_router.Common.{
  ℕ, Bool, true, false, not, ◌&&◌, ◌||◌, Option, none, some, List, [], ◌∷◌, ◌++◌, Bytes, bytes,
  same, if◌then◌else◌,
}
use safeswitch_router.Common.Json.{Fields, no_fields}
use safeswitch_router.Common.Dict.{Dict, lookup, insert, has, is_some}

pub data Status : Type 0 where
  pending acked executing done failed expired : Status

pub record Command : Type 0 where
  pub id : Bytes
  pub command_type : Bytes
  pub payload : Fields

pub record Row : Type 0 where
  pub kind : Bytes
  pub status : Status
  pub payload_json : Fields
  pub result_json : Fields
  pub error_text : Bytes

abbrev pub Ledger : Type 0
Ledger = Dict Row

-- What a handler returns: its result (`none` for a nil map), or an error's text. A handler that
-- panics ends the process.
pub data Answer : Type 0 where
  result : Option Fields → Answer
  error : Bytes → Answer
  panics : Answer

abbrev pub is_final : Status → Bool
is_final done = true
is_final failed = true
is_final expired = true
is_final _ = false

-- A command that is not in the ledger is not terminal.
unfoldable pub is_terminal : Bytes → Ledger → Bool
is_terminal id ledger = elim (lookup id ledger) [ none ↦ false | some row ↦ is_final row.status ]

-- `UPDATE … WHERE id = ?`: no row, no change and no error.
unfoldable pub set_status : Bytes → Status → Option Fields → Bytes → Ledger → Ledger
set_status id status res err ledger = elim (lookup id ledger) [
  | none ↦ ledger
  | some row ↦
      insert id
        (record row {
          status = status;
          result_json = elim res [ none ↦ no_fields | some fields ↦ fields ];
          error_text = err;
        })
        ledger
]

-- A write whose error is ignored.
unfoldable pub try_status :
    (Status → Bool) → Bytes → Status → Option Fields → Bytes → Ledger → Ledger
try_status writes id status res err ledger =
    if writes status then set_status id status res err ledger else ledger

-- `INSERT … ON CONFLICT(id) DO NOTHING`
unfoldable pub enqueue : Command → Ledger → Ledger
enqueue cmd ledger =
    if has cmd.id ledger
    then ledger
    else insert cmd.id
        (record {
          kind = cmd.command_type;
          status = pending;
          payload_json = cmd.payload;
          result_json = no_fields;
          error_text = [];
        })
        ledger

abbrev pub is_pending : Status → Bool
is_pending pending = true
is_pending _ = false

-- Oldest first, which is the order of insertion.
unfoldable pub pending_commands : Ledger → List Command
pending_commands [] = []
pending_commands ((id, row) ∷ ledger) =
    let rest = pending_commands ledger in
    if is_pending row.status
    then record { id = id; command_type = row.kind; payload = row.payload_json } ∷ rest
    else rest

abbrev pub Handler : Type 0 → Type 0
Handler W = Fields → W → W × Answer

module _ {W : Type 0} where
  -- `none` is the panic of a second registration.
  unfoldable pub register : Bytes → Handler W → Dict (Handler W) → Option (Dict (Handler W))
  register command_type h handlers =
      if has command_type handlers then none else some (insert command_type h handlers)

  module _ (quote : Bytes → Bytes) (handlers : Dict (Handler W)) (writes : Status → Bool) where
    -- The part of `Execute` behind the two first writes.
    unfoldable pub dispatch : Command → Ledger × W → Ledger × W
    dispatch cmd (ledger, w) = elim (lookup cmd.command_type handlers) [
      | none ↦ (
        try_status writes cmd.id failed none
            (bytes "no handler registered for command type " ++ quote cmd.command_type) ledger,
        w,
      )
      | some h ↦
          let ran = h cmd.payload w in
          elim ran.1 [
            | error e ↦ (try_status writes cmd.id failed none e ledger, ran.0)
            | result res ↦ (try_status writes cmd.id done res [] ledger, ran.0)
            | panics ↦ (ledger, ran.0)
          ]
    ]

    unfoldable pub execute : Command → Ledger × W → Ledger × W
    execute cmd (ledger, w) =
        let taken = set_status cmd.id acked none [] ledger in
        let started = set_status cmd.id executing none [] taken in
        if is_terminal cmd.id ledger
        then (ledger, w)
        else if not (writes acked)
        then (ledger, w)
        else if not (writes executing)
        then (taken, w)
        else dispatch cmd (started, w)
