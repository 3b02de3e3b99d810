-- ===== src/Supervisor.antt =====
-- internal/supervisor: the services in the order of their registration. Whether the start or the stop
-- of a service, told by its name, ends without an error is a parameter. What is started and stopped
-- is returned, in order. The stops run in goroutines of their own, started in this order, and all of
-- them are awaited.
use safeswitch_router.Common.{
  ◌≡◌, refl, ap, Bool, true, false, Option, none, some, List, [], ◌∷◌, ◌++◌, arith, Bytes, All, ◌⊎◌,
  inl, inr, Bool-cases, if◌then◌else◌,
}

abbrev pub Supervisor : Type 0
Supervisor = List Bytes

abbrev pub new : Supervisor
new = []

unfoldable pub register : Supervisor → Bytes → Supervisor
register s svc = s ++ svc ∷ []

module _ (succeeds : Bytes → Bool) where
  -- The services whose start was called, and the one that failed.
  unfoldable pub start : Supervisor → List Bytes × Option Bytes
  start [] = ([], none)
  start (svc ∷ s) =
      let rest = start s in if succeeds svc then (svc ∷ rest.0, rest.1) else (svc ∷ [], some svc)

  -- From the last service to the first: the services whose stop was called, and those that failed.
  unfoldable pub stop : Supervisor → List Bytes × List Bytes
  stop [] = ([], [])
  stop (svc ∷ s) =
      let rest = stop s in (rest.0 ++ svc ∷ [], if succeeds svc then rest.1 else rest.1 ++ svc ∷ [])

  -- If the start of the supervisor fails for a service, the services registered before it were
  -- started without an error and it was started last; if it does not fail, all services were
  -- started without an error, in the order of their registration.
  pub start-splits :
      (s : Supervisor)
      → ((start s ≡ (s, none)) × All (λ svc. succeeds svc ≡ true) s)
        ⊎ ((before : List Bytes) × (svc : Bytes) × (after : List Bytes) × (s
              ≡ before ++ svc ∷ after)
            × (start s ≡ (before ++ svc ∷ [], some svc))
            × All (λ svc. succeeds svc ≡ true) before
            × (succeeds svc ≡ false))
  unfolding start
  start-splits [] = inl (refl, tt)
  start-splits (svc ∷ s) = elim (Bool-cases (succeeds svc)) [
    | inr h ↦ inr ([], svc, s, refl, ground (arith, h), tt, h)
    | inl h ↦ elim (start-splits s) [
      | inl (e, all) ↦ inl (ground (arith, h, e), (h, all))
      | inr (before, bad, after, split, e, all, failed) ↦
          inr (svc ∷ before, bad, after, ap (◌∷◌ svc) split, ground (arith, h, e), (h, all), failed)
    ]
  ]

  -- Services that are registered one after another are stopped in the reverse order, whichever of
  -- them fail.
  pub stop-register :
      (s : Supervisor) (svc : Bytes)
      → ((stop (register s svc)).0 ≡ svc ∷ (stop s).0)
        × ((stop (register s svc)).1 ≡ (if succeeds svc then (stop s).1 else svc ∷ (stop s).1))
  unfolding stop register
  stop-register [] svc = ground arith
  stop-register (x ∷ s) svc = ground (arith, (stop-register s svc).0, (stop-register s svc).1)
