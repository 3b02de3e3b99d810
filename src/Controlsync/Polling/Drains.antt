-- ===== src/Controlsync/Polling/Drains.antt =====
-- A drain of internal/controlsync/commandpoll.go: each pending command is executed and reported.
use safeswitch_router.Common.{
  ◌≡◌, refl, ap, ◌∙◌, Bool, true, false, ◌&&◌, some, List, [], ◌∷◌, arith, Bytes, same, same_iff,
  ◌⊎◌, Bool-cases, Option-cases, inl, inr,
}
use mathlib.Core.List.{Permᴰ}
use safeswitch_router.Common.Dict.{Dict, lookup, has, lookup-same}
use safeswitch_router.Commands.{
  Status, pending, acked, executing, done, failed, expired, Command, Row, Ledger, Handler, is_final,
  is_terminal, pending_commands, execute,
}
use safeswitch_router.Commands.Runs.{panics_on, execute-final, lookup-execute, is_terminal-execute}
use safeswitch_router.Controlsync.Polling.{
  ResultReport, is_done, report_result, drain_commands, drain_pending,
}

module _ {W : Type 0} (quote : Bytes → Bytes) (handlers : Dict (Handler W))
    (writes : Status → Bool) where
  abbrev run : Command → Ledger × W → Ledger × W
  run = execute quote handlers writes

  abbrev drained : List Command → Ledger × W → (Ledger × W) × List ResultReport
  drained = drain_commands quote handlers writes

  -- A final row is never changed.
  lookup-execute_final :
      (cmd : Command) (k : Bytes) (ledger : Ledger) (w : W)
      → is_terminal k ledger ≡ true
      → lookup k (run cmd (ledger, w)).0 ≡ lookup k ledger
  lookup-execute_final cmd k ledger w h = elim (Bool-cases (same cmd.id k)) [
    | inl m ↦
        let n : cmd.id ≡ k = ground (arith, m, same_iff cmd.id k) in
        let final : is_terminal cmd.id ledger ≡ true = ap (λ x. is_terminal x ledger) n ∙ h in
        ap (λ (s : Ledger × W). lookup k s.0)
          (execute-final quote handlers writes cmd ledger w final)
    | inr m ↦ lookup-execute quote handlers writes cmd k ledger w m
  ]

  lookup-drain_final :
      (cmds : List Command) (k : Bytes) (s : Ledger × W)
      → is_terminal k s.0 ≡ true
      → lookup k (drained cmds s).0.0 ≡ lookup k s.0
  unfolding drain_commands is_terminal
  lookup-drain_final [] k s h = refl
  lookup-drain_final (cmd ∷ cmds) k s h =
      let step = lookup-execute_final cmd k s.0 s.1 h in
      lookup-drain_final cmds k (run cmd s) (ground (arith, step, h)) ∙ step

  module _ (all : (status : Status) → writes status ≡ true)
      (calm : (cmd : Command) (w : W) → panics_on handlers cmd w ≡ false) where
    has-execute :
        (cmd : Command) (k : Bytes) (s : Ledger × W)
        → has cmd.id s.0 ≡ true
        → has k s.0 ≡ true
        → has k (run cmd s).0 ≡ true
    unfolding is_terminal
    has-execute cmd k s h g = elim (Bool-cases (same cmd.id k)) [
      | inl m ↦
          let final = is_terminal-execute quote handlers writes cmd s.0 s.1 h all (calm cmd s.1) in
          ground (arith, final, lookup-same cmd.id k (run cmd s).0 m)
      | inr m ↦ ground (arith, g, lookup-execute quote handlers writes cmd k s.0 s.1 m)
    ]

    -- All commands of the list are in the ledger.
    abbrev pub all_known : List Command → Ledger → Bool
    all_known [] ledger = true
    all_known (cmd ∷ cmds) ledger = has cmd.id ledger && all_known cmds ledger

    all_known-execute :
        (cmd : Command) (cmds : List Command) (s : Ledger × W)
        → has cmd.id s.0 ≡ true
        → all_known cmds s.0 ≡ true
        → all_known cmds (run cmd s).0 ≡ true
    all_known-execute cmd [] s h g = refl
    all_known-execute cmd (c ∷ cmds) s h g =
        ground (arith, g, has-execute cmd c.id s h, all_known-execute cmd cmds s h)

    -- The row of the command is final, and the report has its texts and says whether it is done.
    abbrev pub IsReported : Ledger → Command → ResultReport → Type 0
    IsReported ledger cmd report =
        (row : Row) × (lookup cmd.id ledger ≡ some row)
        × (report.id ≡ cmd.id)
        × (report.result_json ≡ row.result_json)
        × (report.error_text ≡ row.error_text)
        × (((row.status ≡ done) × (report.success ≡ true))
            ⊎ (((row.status ≡ failed) ⊎ (row.status ≡ expired)) × (report.success ≡ false)))

    final_status :
        (status : Status)
        → is_final status ≡ true
        → ((status ≡ done) × (is_done status ≡ true))
          ⊎ (((status ≡ failed) ⊎ (status ≡ expired)) × (is_done status ≡ false))
    final_status done h = inl (refl, refl)
    final_status failed h = inr (inl refl, refl)
    final_status expired h = inr (inr refl, refl)
    final_status pending h = absurd (ground (arith, h))
    final_status acked h = absurd (ground (arith, h))
    final_status executing h = absurd (ground (arith, h))

    report_result-IsReported :
        (ledger : Ledger) (cmd : Command)
        → is_terminal cmd.id ledger ≡ true
        → IsReported ledger cmd (report_result cmd.id ledger)
    unfolding is_terminal report_result
    report_result-IsReported ledger cmd h = elim (Option-cases (lookup cmd.id ledger)) [
      | inl n ↦ absurd (ground (arith, h, n))
      | inr (row, n) ↦
          let said : report_result cmd.id ledger ≡ record {
            id = cmd.id;
            success = is_done row.status;
            result_json = row.result_json;
            error_text = row.error_text;
          } =
            rw (n, report_result) refl in
          rw said (row, n, refl, refl, refl, final_status row.status (ground (arith, h, n)))
    ]

    IsReported-kept :
        (ledger after : Ledger) (cmd : Command) (report : ResultReport)
        → lookup cmd.id after ≡ lookup cmd.id ledger
        → IsReported ledger cmd report
        → IsReported after cmd report
    IsReported-kept ledger after cmd report kept (row, here, id, res, err, how) =
        (row, kept ∙ here, id, res, err, how)

    abbrev pub AllReported : Ledger → List Command → List ResultReport → Type 0
    AllReported ledger [] [] = Unit {0}
    AllReported ledger [] (r ∷ rs) = ⊥
    AllReported ledger (c ∷ cs) [] = ⊥
    AllReported ledger (c ∷ cs) (r ∷ rs) = IsReported ledger c r × AllReported ledger cs rs

    drain_commands-AllReported :
        (cmds : List Command) (s : Ledger × W)
        → all_known cmds s.0 ≡ true
        → AllReported (drained cmds s).0.0 cmds (drained cmds s).1
    unfolding drain_commands is_terminal
    drain_commands-AllReported [] s h = tt
    drain_commands-AllReported (cmd ∷ cmds) s h =
        let ran = run cmd s in
        let known : has cmd.id s.0 ≡ true = ground (arith, h) in
        let final =
          is_terminal-execute quote handlers writes cmd s.0 s.1 known all (calm cmd s.1) in
        let kept_row = lookup-drain_final cmds cmd.id ran final in
        (
          IsReported-kept ran.0 (drained cmds ran).0.0 cmd (report_result cmd.id ran.0) kept_row
              (report_result-IsReported ran.0 cmd final),
          drain_commands-AllReported cmds ran
              (all_known-execute cmd cmds s known (ground (arith, h))),
        )

    -- The order of the commands makes no difference.
    all_known-Permᴰ :
        (ledger : Ledger) (cmds other : List Command)
        → Permᴰ cmds other
        → all_known cmds ledger ≡ true
        → all_known other ledger ≡ true
    all_known-Permᴰ ledger _ _ Permᴰ.nil h = refl
    all_known-Permᴰ ledger _ _ (Permᴰ.cons {a} {b} {l₁ = cmds} {l₂ = other} e p) h =
        ground (arith, h, ap (λ c. has c.id ledger) e, all_known-Permᴰ ledger cmds other p)
    all_known-Permᴰ ledger _ _ (Permᴰ.swap {a} {b} {a' = c} {b' = d} {l = cmds} e f) h =
        ground (arith, h, ap (λ x. has x.id ledger) e, ap (λ x. has x.id ledger) f)
    all_known-Permᴰ ledger _ _ (Permᴰ.trans {l₁ = cmds} {l₂ = middle} {l₃ = other} p q) h =
        all_known-Permᴰ ledger middle other q (all_known-Permᴰ ledger cmds middle p h)

    all_known-pending :
        (ledger part : Ledger)
        → ((k : Bytes) → has k part ≡ true → has k ledger ≡ true)
        → all_known (pending_commands part) ledger ≡ true
    unfolding pending_commands lookup
    all_known-pending ledger [] h = refl
    all_known-pending ledger ((id, row) ∷ part) h = ground (
      arith,
      h id (ground (arith, same_iff id id)),
      all_known-pending ledger part (λ k e. h k (ground (arith, e))),
    )

    -- In whatever order the pending commands run, each is executed and reported once: behind the drain
    -- its row is final, and its report carries the result and the text of that row and says success
    -- exactly if the row is done, whatever ran in between. For a database that takes all writes and
    -- handlers that do not panic.
    pub drain_pending-AllReported :
        (schedule : List Command → List Command) (s : Ledger × W)
        → Permᴰ (pending_commands s.0) (schedule (pending_commands s.0))
        → AllReported
            (drain_pending quote handlers writes schedule true s).0.0
            (schedule (pending_commands s.0))
            (drain_pending quote handlers writes schedule true s).1
    unfolding drain_pending
    drain_pending-AllReported schedule s p =
        let cmds = pending_commands s.0 in
        drain_commands-AllReported (schedule cmds) s
          (all_known-Permᴰ s.0 cmds (schedule cmds) p (all_known-pending s.0 s.0 (λ k h. h)))
