-- ===== src/Commands/Runs.antt =====
-- The life of a command in internal/commands/executor.go.
use safeswitch_router.Common.{
  ◌≡◌, refl, ◌∙◌, Bool, true, false, Option, none, some, [], ◌++◌, arith, Bytes, bytes, same,
  same_refl, same_iff, if◌then◌else◌, Option-cases, ◌⊎◌, inl, inr,
}
use safeswitch_router.Common.Json.{Fields, no_fields}
use safeswitch_router.Common.Dict.{Dict, lookup, has, lookup-insert}
use safeswitch_router.Commands.{
  Status, acked, executing, done, failed, Command, Ledger, Answer, result, error, is_final, panics,
  is_terminal, set_status, Handler, try_status, dispatch, execute,
}

Answer-cases :
    (a : Answer)
    → ((res : Option Fields) × (a ≡ result res)) ⊎ (((e : Bytes) × (a ≡ error e)) ⊎ (a ≡ panics))
Answer-cases (result res) = inl (res, refl)
Answer-cases (error e) = inr (inl (e, refl))
Answer-cases panics = inr (inr refl)

-- Does the handler of the command panic?
abbrev pub panics_on : {W : Type 0} → Dict (Handler W) → Command → W → Bool
panics_on handlers cmd w = elim (lookup cmd.command_type handlers) [
  | none ↦ false
  | some h ↦ elim (h cmd.payload w).1 [ result res ↦ false | error e ↦ false | panics ↦ true ]
]

-- The ledger's row of a command behind a write, and that of any other.
pub lookup-set_status :
    (id other : Bytes) (status : Status) (res : Option Fields) (err : Bytes) (ledger : Ledger)
    → lookup other (set_status id status res err ledger) ≡ (
        if same id other
        then (elim (lookup other ledger) [
          | none ↦ none
          | some row ↦ some (record row {
            status = status;
            result_json = elim res [ none ↦ no_fields | some fields ↦ fields ];
            error_text = err;
          })
        ])
        else lookup other ledger)
unfolding set_status
lookup-set_status id other status res err ledger = elim (Option-cases (lookup id ledger)) [
  | inl h ↦ ground (arith, h, same_iff id other)
  | inr (row, h) ↦ ground (
    arith,
    h,
    same_iff id other,
    lookup-insert id other
        (record row {
          status = status;
          result_json = elim res [ none ↦ no_fields | some fields ↦ fields ];
          error_text = err;
        })
        ledger,
  )
]

pub has-set_status :
    (id other : Bytes) (status : Status) (res : Option Fields) (err : Bytes) (ledger : Ledger)
    → has other (set_status id status res err ledger) ≡ has other ledger
has-set_status id other status res err ledger =
    ground (arith, lookup-set_status id other status res err ledger)

is_terminal-set_status :
    (id : Bytes) (status : Status) (res : Option Fields) (err : Bytes) (ledger : Ledger)
    → has id ledger ≡ true
    → is_final status ≡ true
    → is_terminal id (set_status id status res err ledger) ≡ true
unfolding is_terminal
is_terminal-set_status id status res err ledger h f =
    ground (arith, h, f, same_refl id, lookup-set_status id id status res err ledger)

module _ {W : Type 0} (quote : Bytes → Bytes) (handlers : Dict (Handler W))
    (writes : Status → Bool) where
  -- A dispatch makes one write, of a final state, and none if the handler panics.
  dispatch-write :
      (cmd : Command) (ledger : Ledger) (w : W)
      → (status : Status) × (res : Option Fields) × (err : Bytes) × (after : W) × (dispatch quote
            handlers writes cmd
            (ledger, w)
          ≡ (
            if panics_on handlers cmd w
                then ledger
                else try_status writes cmd.id status res err ledger,
            after,
          ))
        × (is_final status ≡ true)
        × (writes done ≡ true → writes failed ≡ true → writes status ≡ true)
  unfolding dispatch
  dispatch-write cmd ledger w = elim (Option-cases (lookup cmd.command_type handlers)) [
    | inl h ↦ (
      failed,
      none,
      bytes "no handler registered for command type " ++ quote cmd.command_type,
      w,
      ground (arith, h),
      refl,
      λ d f. f,
    )
    | inr (run, h) ↦ elim (Answer-cases (run cmd.payload w).1) [
      | inl (res, k) ↦ (done, res, [], (run cmd.payload w).0, ground (arith, h, k), refl, λ d f. d)
      | inr (inl (e, k)) ↦
          (failed, none, e, (run cmd.payload w).0, ground (arith, h, k), refl, λ d f. f)
      | inr (inr k) ↦
          (failed, none, [], (run cmd.payload w).0, ground (arith, h, k), refl, λ d f. f)
    ]
  ]

  is_terminal-dispatch :
      (cmd : Command) (ledger : Ledger) (w : W)
      → has cmd.id ledger ≡ true
      → writes done ≡ true
      → writes failed ≡ true
      → panics_on handlers cmd w ≡ false
      → is_terminal cmd.id (dispatch quote handlers writes cmd (ledger, w)).0 ≡ true
  unfolding try_status
  is_terminal-dispatch cmd ledger w h d f p =
      let (status, res, err, after, e, final, written) = dispatch-write cmd ledger w in
      ground (arith, e, p, written d f, is_terminal-set_status cmd.id status res err ledger h final)

  lookup-dispatch :
      (cmd : Command) (other : Bytes) (ledger : Ledger) (w : W)
      → same cmd.id other ≡ false
      → lookup other (dispatch quote handlers writes cmd (ledger, w)).0 ≡ lookup other ledger
  unfolding try_status
  lookup-dispatch cmd other ledger w h =
      let (status, res, err, after, e, _, _) = dispatch-write cmd ledger w in
      ground (arith, e, h, lookup-set_status cmd.id other status res err ledger)

  pub execute-final :
      (cmd : Command) (ledger : Ledger) (w : W)
      → is_terminal cmd.id ledger ≡ true
      → execute quote handlers writes cmd (ledger, w) ≡ (ledger, w)
  unfolding execute
  execute-final cmd ledger w h = ground (arith, h)

  pub lookup-execute :
      (cmd : Command) (other : Bytes) (ledger : Ledger) (w : W)
      → same cmd.id other ≡ false
      → lookup other (execute quote handlers writes cmd (ledger, w)).0 ≡ lookup other ledger
  unfolding execute
  lookup-execute cmd other ledger w h =
      let taken = set_status cmd.id acked none [] ledger in
      let started = set_status cmd.id executing none [] taken in
      ground (
        arith,
        h,
        lookup-dispatch cmd other started w h,
        lookup-set_status cmd.id other acked none [] ledger,
        lookup-set_status cmd.id other executing none [] taken,
      )

  pub is_terminal-execute :
      (cmd : Command) (ledger : Ledger) (w : W)
      → has cmd.id ledger ≡ true
      → ((status : Status) → writes status ≡ true)
      → panics_on handlers cmd w ≡ false
      → is_terminal cmd.id (execute quote handlers writes cmd (ledger, w)).0 ≡ true
  unfolding execute
  is_terminal-execute cmd ledger w h all p =
      let taken = set_status cmd.id acked none [] ledger in
      let started = set_status cmd.id executing none [] taken in
      let kept : has cmd.id started ≡ true =
        has-set_status cmd.id cmd.id executing none [] taken
        ∙ has-set_status cmd.id cmd.id acked none [] ledger
        ∙ h in
      ground (
        arith,
        all acked,
        all executing,
        is_terminal-dispatch cmd started w kept (all done) (all failed) p,
      )

  -- A command of the ledger is executed at most once while every write succeeds and its handler does
  -- not panic: behind one run of it its row is terminal, and a second run changes neither the ledger
  -- nor what handlers change. A run leaves the row of any other command.
  pub execute-execute :
      (cmd : Command) (other : Bytes) (ledger : Ledger) (w : W)
      → same cmd.id other ≡ false
      → has cmd.id ledger ≡ true
      → ((status : Status) → writes status ≡ true)
      → panics_on handlers cmd w ≡ false
      → (is_terminal cmd.id (execute quote handlers writes cmd (ledger, w)).0 ≡ true)
        × (execute quote handlers writes cmd (execute quote handlers writes cmd (ledger, w))
            ≡ execute quote handlers writes cmd (ledger, w))
        × (lookup other (execute quote handlers writes cmd (ledger, w)).0 ≡ lookup other ledger)
  execute-execute cmd other ledger w apart h all p =
      let final = is_terminal-execute cmd ledger w h all p in
      let after = execute quote handlers writes cmd (ledger, w) in
      (final, execute-final cmd after.0 after.1 final, lookup-execute cmd other ledger w apart)
