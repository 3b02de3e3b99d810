-- ===== src/Localclock.antt =====
-- internal/localclock/localclock.go: the tick that forces a recompute of each child that is due. The
-- two calls of the cloud are arguments: the rows that are due (`none` is the error) and whether a
-- recompute, after the calls made so far, succeeds. Times and durations are nanoseconds since Go's
-- zero time; `time.Now()` is an argument.
use safeswitch_router.Common.{
  ℕ, suc, ◌+◌, ◌-◌, ◌^◌, ◌<◌, ◌≤◌, ◌≡◌, refl, Bool, true, false, ◌&&◌, Option, none, some, List, [],
  ◌∷◌, ◌++◌, arith, Bytes, ltb, ◌==◌, same, same_iff, if◌then◌else◌, ◌⊎◌, inl,
}
use safeswitch_router.Common.Dict.{Dict, lookup, insert, lookup-insert}

pub record Config : Type 0 where
  pub tick_interval : ℕ
  pub look_back : ℕ
  pub per_child_debounce : ℕ

-- Zero asks for the default; no duration is negative here.
unfoldable pub with_defaults : Config → Config
with_defaults cfg = record {
  tick_interval = if cfg.tick_interval == 0 then 1000000000 else cfg.tick_interval;
  look_back = if cfg.look_back == 0 then 120000000000 else cfg.look_back;
  per_child_debounce = if cfg.per_child_debounce == 0 then 30000000000 else cfg.per_child_debounce;
}

pub record DueRow : Type 0 where
  pub due_child : Bytes
  pub next_change : ℕ

-- `now.Sub(last)`, which stops at the greatest duration. Before `last` it is negative in the source
-- and 0 here, below any debounce either way.
unfoldable pub since : ℕ → ℕ → ℕ
since now last = if ltb (2 ^ 63 - 1) (now - last) then 2 ^ 63 - 1 else now - last

-- A child that was never hit has the zero time.
unfoldable pub last_of : Bytes → Dict ℕ → ℕ
last_of child hits = elim (lookup child hits) [ some last ↦ last | none ↦ 0 ]

-- The recomputes called for, with their success.
abbrev pub Calls : Type 0
Calls = List (Bytes × Bool)

module _ (recompute : Calls → Bytes → Bool) (cfg : Config) (now : ℕ) where
  unfoldable pub recompute_due : List DueRow → Dict ℕ → Calls → Dict ℕ × Calls
  recompute_due [] hits calls = (hits, calls)
  recompute_due (d ∷ due) hits calls =
      let skip = ltb (since now (last_of d.due_child hits)) cfg.per_child_debounce in
      let ok = recompute calls d.due_child in
      recompute_due due (if skip then hits else if ok then insert d.due_child now hits else hits)
        (if skip then calls else calls ++ (d.due_child, ok) ∷ [])

  unfoldable pub tick : Option (List DueRow) → Dict ℕ → Dict ℕ × Calls
  tick none hits = (hits, [])
  tick (some due) hits = recompute_due due hits []

-- The recomputes of a child that succeeded.
abbrev pub forced : Bytes → Calls → ℕ
forced child [] = 0
forced child ((c, ok) ∷ calls) =
    if same c child && ok then suc (forced child calls) else forced child calls

forced-append :
    (child : Bytes) (xs ys : Calls) → forced child (xs ++ ys) ≡ forced child xs + forced child ys
forced-append child [] ys = omega arith
forced-append child ((c, ok) ∷ xs) ys = ground (arith, forced-append child xs ys)

module _ (recompute : Calls → Bytes → Bool) (cfg : Config) (now : ℕ) where
  -- Nothing forced, or forced once when due.
  abbrev IsSpaced : Bytes → Dict ℕ → Calls → Dict ℕ × Calls → Type 0
  IsSpaced child hits calls after =
      ((forced child after.1 ≡ forced child calls) × (lookup child after.0 ≡ lookup child hits))
      ⊎ ((forced child after.1 ≡ forced child calls + 1)
          × (lookup child after.0 ≡ some now)
          × (cfg.per_child_debounce ≤ since now (last_of child hits)))

  since_self : since now now ≡ 0
  unfolding since
  since_self = ground arith

  recompute_due-IsSpaced :
      (child : Bytes) (due : List DueRow) (hits : Dict ℕ) (calls : Calls)
      → 0 < cfg.per_child_debounce
      → IsSpaced child hits calls (recompute_due recompute cfg now due hits calls)
  unfolding recompute_due last_of
  recompute_due-IsSpaced child [] hits calls h = inl (refl, refl)
  recompute_due-IsSpaced child (d ∷ due) hits calls h = ground (
    arith,
    h,
    since_self,
    same_iff d.due_child child,
    forced-append child calls ((d.due_child, true) ∷ []),
    forced-append child calls ((d.due_child, false) ∷ []),
    lookup-insert d.due_child child now hits,
    recompute_due-IsSpaced child due hits calls h,
    recompute_due-IsSpaced child due hits (calls ++ (d.due_child, false) ∷ []) h,
    recompute_due-IsSpaced child due (insert d.due_child now hits)
        (calls ++ (d.due_child, true) ∷ []) h,
  )

  -- With a positive debounce, one tick recomputes a child successfully at most once, however often
  -- it is listed, and only if the debounce has passed since the last time; then and only then that
  -- time is set to now.
  pub tick-forced :
      (child : Bytes) (due : List DueRow) (hits : Dict ℕ)
      → 0 < cfg.per_child_debounce
      → ((forced child (tick recompute cfg now (some due) hits).1 ≡ 0)
          × (lookup child (tick recompute cfg now (some due) hits).0 ≡ lookup child hits))
        ⊎ ((forced child (tick recompute cfg now (some due) hits).1 ≡ 1)
            × (lookup child (tick recompute cfg now (some due) hits).0 ≡ some now)
            × (cfg.per_child_debounce ≤ since now (last_of child hits)))
  unfolding tick
  tick-forced child due hits h = recompute_due-IsSpaced child due hits [] h
