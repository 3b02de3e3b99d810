-- ===== src/Controlsync/Polling/Takes.antt =====
-- Which commands of the cloud internal/controlsync/commandpoll.go takes into the ledger: none twice.
use safeswitch_router.Common.{
  ◌≡◌, Bool, true, not, ◌&&◌, ◌||◌, some, List, [], ◌∷◌, arith, Bytes, any, same, Bool-cases, inl,
  inr,
}
use safeswitch_router.Common.Json.{no_fields}
use safeswitch_router.Common.Dict.{lookup, has, lookup-insert, lookup-same}
use safeswitch_router.Commands.{pending, Command, Row, Ledger, enqueue}
use safeswitch_router.Controlsync.Polling.{CloudCommand, command_exists, take_commands}

abbrev pub is_named : Bytes → List CloudCommand → Bool
is_named k = any (λ c. same c.id k)

lookup-enqueue :
    (cmd : Command) (ledger : Ledger) (k : Bytes)
    → (has k (enqueue cmd ledger) ≡ (has k ledger || same cmd.id k))
      × ((row : Row) → lookup k ledger ≡ some row → lookup k (enqueue cmd ledger) ≡ some row)
unfolding enqueue
lookup-enqueue cmd ledger k =
    let row0 : Row = record {
      kind = cmd.command_type;
      status = pending;
      payload_json = cmd.payload;
      result_json = no_fields;
      error_text = [];
    } in
    let put = lookup-insert cmd.id k row0 ledger in
    elim (Bool-cases (has cmd.id ledger)) [
      | inl h ↦ elim (Bool-cases (same cmd.id k)) [
        | inl m ↦
            (ground (arith, h, m, lookup-same cmd.id k ledger m), λ row e. ground (arith, h, e))
        | inr m ↦ (ground (arith, h, m), λ row e. ground (arith, h, e))
      ]
      | inr h ↦ elim (Bool-cases (same cmd.id k)) [
        | inl m ↦
            let known = lookup-same cmd.id k ledger m in
            (ground (arith, h, m, known, put), λ row e. absurd (ground (arith, h, known, e)))
        | inr m ↦ (ground (arith, h, m, put), λ row e. ground (arith, h, m, e, put))
      ]
    ]

-- Behind a poll a command is in the ledger exactly if it was before or came with the reply, and was
-- acknowledged exactly in the second case; no row that was there changes.
pub take_commands-has :
    (cmds : List CloudCommand) (ledger : Ledger) (k : Bytes)
    → let o = take_commands (λ id. true) (λ id. true) cmds ledger in
      (has k o.0 ≡ (has k ledger || is_named k cmds))
      × (any (λ id. same id k) o.1 ≡ (not (has k ledger) && is_named k cmds))
      × ((row : Row) → lookup k ledger ≡ some row → lookup k o.0 ≡ some row)
unfolding take_commands command_exists
take_commands-has [] ledger k = (ground arith, ground arith, λ row h. h)
take_commands-has (c ∷ cmds) ledger k =
    let cmd : Command = record { id = c.id; command_type = c.command_type; payload = c.payload } in
    elim (Bool-cases (has c.id ledger)) [
      | inl h ↦
          let (stays, acks, kept) = take_commands-has cmds ledger k in
          let known = lookup-same c.id k ledger in
          rw h (ground (arith, h, stays, known), ground (arith, h, acks, known), kept)
      | inr h ↦
          let (stays, acks, kept) = take_commands-has cmds (enqueue cmd ledger) k in
          let (queued, kept_row) = lookup-enqueue cmd ledger k in
          let unknown = lookup-same c.id k ledger in
          rw h (
            ground (arith, stays, queued),
            ground (arith, h, acks, queued, unknown),
            λ row e. kept row (kept_row row e),
          )
    ]
