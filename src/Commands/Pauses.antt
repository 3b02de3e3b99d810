-- ===== src/Commands/Pauses.antt =====
-- A `pause_device` command on its way through internal/commands/executor.go and handlers.go.
use safeswitch_router.Common.{
  ℕ, ◌<◌, ◌≡◌, ◌∙◌, ◌++◌, Bool, true, false, Option, none, some, [], arith, Bytes, bytes, length,
  same, same_refl, if◌then◌else◌, Option-cases, inl, inr,
}
use safeswitch_router.Common.Json.{text, Fields, field_of}
use safeswitch_router.Common.Dict.{Dict, lookup, insert, has, is_some}
use safeswitch_router.Commands.{
  Status, acked, executing, done, failed, Ledger, error, Handler, register, is_terminal, set_status,
  try_status, dispatch, execute,
}
use safeswitch_router.Commands.Runs.{lookup-set_status, has-set_status}
use safeswitch_router.Commands.Payloads.{Fallible, require_string}
use safeswitch_router.Commands.Interfaces.{FirewallEnforcer, Services, attempt}
use safeswitch_router.Commands.Handlers.{pause_device_handler, paused_fields, paused_result}
use safeswitch_router.Commands.Registration.{register_handlers}

-- The status of the command's row.
abbrev pub status_of : Bytes → Ledger → Option Status
status_of id ledger = elim (lookup id ledger) [ none ↦ none | some row ↦ some row.status ]

status_of-set_status :
    (id : Bytes) (status : Status) (res : Option Fields) (err : Bytes) (ledger : Ledger)
    → has id ledger ≡ true
    → status_of id (set_status id status res err ledger) ≡ some status
status_of-set_status id status res err ledger h =
    ground (arith, h, same_refl id, lookup-set_status id id status res err ledger)

module _ {W : Type 0} (quote : Bytes → Bytes) (parse : Bytes → Bytes → Fallible ℕ) (now : Bytes)
    (exit : W → W) (s : Services W) where
  lookup-register_handlers :
      (handlers : Dict (Handler W))
      → register_handlers quote parse now exit s [] ≡ some handlers
      → lookup (bytes "pause_device") handlers ≡ some (pause_device_handler quote s.firewall)
  unfolding register_handlers register lookup insert same
  lookup-register_handlers handlers h = ground (arith, h)

  pause_device_handler-fw :
      (fw : FirewallEnforcer W) (payload : Fields) (mac : Bytes) (w : W)
      → field_of (bytes "device_mac") payload ≡ some (text mac)
      → 0 < length mac
      → pause_device_handler quote (some fw) payload w ≡ (
        (fw.pause_device mac w).0,
        elim (fw.pause_device mac w).1 [
          | none ↦ paused_result mac true true
          | some e ↦ error (bytes "pause_device: " ++ e)
        ],
      )
  unfolding pause_device_handler attempt require_string
  pause_device_handler-fw fw payload mac w h k = elim (Option-cases (fw.pause_device mac w).1) [
    | inl e ↦ ground (arith, h, k, e)
    | inr (t, e) ↦ ground (arith, h, k, e)
  ]

  -- With the router's own handlers registered and a firewall that runs, a `pause_device` command of
  -- the ledger that is not terminal and names a device asks the firewall once to pause that device,
  -- and its row is done behind if the firewall reports no error, and failed if it does. Every write
  -- succeeds.
  pub execute-pause_device :
      (writes : Status → Bool) (handlers : Dict (Handler W)) (fw : FirewallEnforcer W)
      (id mac : Bytes) (payload : Fields) (ledger : Ledger) (w : W)
      → register_handlers quote parse now exit s [] ≡ some handlers
      → s.firewall ≡ some fw
      → ((status : Status) → writes status ≡ true)
      → has id ledger ≡ true
      → is_terminal id ledger ≡ false
      → field_of (bytes "device_mac") payload ≡ some (text mac)
      → 0 < length mac
      → ((execute quote handlers writes
            (record { id = id; command_type = bytes "pause_device"; payload = payload })
            (ledger, w)).1
          ≡ (fw.pause_device mac w).0)
        × (status_of id
              (execute quote handlers writes
                (record { id = id; command_type = bytes "pause_device"; payload = payload })
                (ledger, w)).0
            ≡ some (if is_some (fw.pause_device mac w).1 then failed else done))
  unfolding execute dispatch try_status
  execute-pause_device writes handlers fw id mac payload ledger w reg f all h t m l =
      let taken = set_status id acked none [] ledger in
      let started = set_status id executing none [] taken in
      let kept : has id started ≡ true =
        has-set_status id id executing none [] taken
        ∙ has-set_status id id acked none [] ledger
        ∙ h in
      let ran = pause_device_handler-fw fw payload mac w m l in
      let found = lookup-register_handlers handlers reg in
      elim (Option-cases (fw.pause_device mac w).1) [
        | inl e ↦ (
          ground (arith, all acked, all executing, t, f, found, ran, e),
          ground (
            arith,
            all acked,
            all executing,
            all done,
            t,
            f,
            found,
            ran,
            e,
            status_of-set_status id done (some (paused_fields mac true true)) [] started kept,
          ),
        )
        | inr (err, e) ↦ (
          ground (arith, all acked, all executing, t, f, found, ran, e),
          ground (
            arith,
            all acked,
            all executing,
            all failed,
            t,
            f,
            found,
            ran,
            e,
            status_of-set_status id failed none (bytes "pause_device: " ++ err) started kept,
          ),
        )
      ]
