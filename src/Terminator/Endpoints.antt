-- ===== src/Terminator/Endpoints.antt =====
-- No endpoint of internal/terminator/service.go is lost or closed twice, however calls interleave.
use safeswitch_router.Common.{
  ℕ, ◌+◌, ◌-◌, ◌≤◌, ◌≡◌, refl, true, false, some, List, [], ◌∷◌, ◌++◌, arith, Bytes, ltb, ◌==◌,
  if◌then◌else◌, Bool-cases, Option-cases, inl, inr,
}
use safeswitch_router.Common.Dict.{Dict, lookup, insert, has}
use safeswitch_router.Terminator.{
  FamilyEndpoint, Terminator, new_terminator, close_endpoint, bump, find_family, bring_up_family,
  publish_family, idle_teardown, sweep_from, idle_sweep, close_all, stop_terminator,
}

abbrev pub times : ℕ → List ℕ → ℕ
times n [] = 0
times n (m ∷ ms) = if m == n then times n ms + 1 else times n ms

-- How often an endpoint stands in the map, and among the calls between their second and third step.
abbrev pub in_families : ℕ → Dict FamilyEndpoint → ℕ
in_families n [] = 0
in_families n ((f, ep) ∷ families) =
    if ep.number == n then in_families n families + 1 else in_families n families

-- The terminators that steps lead to, with the endpoints that calls hold in hand.
pub data Reachable : List ℕ → Terminator → Type 0 where
  made : Reachable [] new_terminator
  found :
      (family : Bytes) (now : ℕ) (held : List ℕ) (s : Terminator)
      → Reachable held s
      → Reachable held (find_family family now s).0
  brought_up :
      (addr : Bytes) (now : ℕ) (held : List ℕ) (s : Terminator)
      → Reachable held s
      → Reachable (s.next ∷ held) (bring_up_family true (some addr) true now s).0
  published :
      (family : Bytes) (ep : FamilyEndpoint) (before held : List ℕ) (s : Terminator)
      → Reachable (before ++ ep.number ∷ held) s
      → Reachable (before ++ held) (publish_family family ep s).0
  swept :
      (now : ℕ) (held : List ℕ) (s : Terminator)
      → Reachable held s
      → Reachable held (idle_sweep now s)
  stopped : (held : List ℕ) (s : Terminator) → Reachable held s → Reachable held (stop_terminator s)

times-append : (n : ℕ) (xs ys : List ℕ) → times n (xs ++ ys) ≡ times n xs + times n ys
times-append n [] ys = omega arith
times-append n (x ∷ xs) ys = ground (arith, times-append n xs ys)

times-close :
    (n m : ℕ) (ms : List ℕ) → times n (close_endpoint m ms) ≡ times n ms - (if m == n then 1 else 0)
unfolding close_endpoint
times-close n m [] = ground arith
times-close n m (x ∷ ms) = ground (arith, times-close n m ms)

in_families-bump :
    (n : ℕ) (family : Bytes) (now : ℕ) (fs : Dict FamilyEndpoint)
    → in_families n (bump family now fs) ≡ in_families n fs
unfolding bump
in_families-bump n family now [] = refl
in_families-bump n family now ((f, ep) ∷ fs) = ground (arith, in_families-bump n family now fs)

in_families-insert :
    (n : ℕ) (family : Bytes) (ep : FamilyEndpoint) (fs : Dict FamilyEndpoint)
    → has family fs ≡ false
    → in_families n (insert family ep fs) ≡ in_families n fs + (if ep.number == n then 1 else 0)
unfolding insert lookup
in_families-insert n family ep [] h = ground arith
in_families-insert n family ep ((f, e) ∷ fs) h =
    ground (arith, h, in_families-insert n family ep fs)

in_families-sweep :
    (n now : ℕ) (fs : Dict FamilyEndpoint) (opened : List ℕ) (rest : ℕ)
    → times n opened ≡ in_families n fs + rest
    → times n (sweep_from now fs opened).1 ≡ in_families n (sweep_from now fs opened).0 + rest
unfolding sweep_from
in_families-sweep n now [] opened rest e = e
in_families-sweep n now ((f, ep) ∷ fs) opened rest e =
    elim (Bool-cases (ltb idle_teardown (now - ep.seen_at))) [
      | inl b ↦
          let closed = times-close n ep.number opened in
          rw b (
            in_families-sweep n now fs (close_endpoint ep.number opened) rest
              (ground (arith, e, closed)))
      | inr b ↦
          let kept : ℕ = if ep.number == n then 1 else 0 in
          let later = in_families-sweep n now fs opened (rest + kept) (ground (arith, e)) in
          rw b (ground (arith, later))
    ]

times-close_all :
    (n : ℕ) (fs : Dict FamilyEndpoint) (opened : List ℕ) (rest : ℕ)
    → times n opened ≡ in_families n fs + rest
    → times n (close_all fs opened) ≡ rest
unfolding close_all
times-close_all n [] opened rest e = ground (arith, e)
times-close_all n ((f, ep) ∷ fs) opened rest e =
    times-close_all n fs (close_endpoint ep.number opened) rest
      (ground (arith, e, times-close n ep.number opened))

publish_family-times :
    (n : ℕ) (family : Bytes) (ep : FamilyEndpoint) (s : Terminator) (rest : ℕ)
    → times n s.opened ≡ in_families n s.families + (rest + (if ep.number == n then 1 else 0))
    → times n (publish_family family ep s).0.opened
      ≡ in_families n (publish_family family ep s).0.families + rest
unfolding publish_family
publish_family-times n family ep s rest e = elim (Option-cases (lookup family s.families)) [
  | inl h ↦ ground (arith, e, h, in_families-insert n family ep s.families)
  | inr (other, h) ↦ ground (arith, e, h, times-close n ep.number s.opened)
]

find_family-times :
    (n now : ℕ) (family : Bytes) (s : Terminator)
    → (times n (find_family family now s).0.opened ≡ times n s.opened)
      × (in_families n (find_family family now s).0.families ≡ in_families n s.families)
unfolding find_family
find_family-times n now family s = elim (Option-cases (lookup family s.families)) [
  | inl h ↦ (ground (arith, h), ground (arith, h))
  | inr (ep, h) ↦ (ground (arith, h), ground (arith, h, in_families-bump n family now s.families))
]

times-sweep :
    (n now : ℕ) (fs : Dict FamilyEndpoint) (opened : List ℕ)
    → times n (sweep_from now fs opened).1 ≤ times n opened
unfolding sweep_from
times-sweep n now [] opened = omega arith
times-sweep n now ((f, ep) ∷ fs) opened = ground (
  arith,
  times-close n ep.number opened,
  times-sweep n now fs opened,
  times-sweep n now fs (close_endpoint ep.number opened),
)

times-close_all_le :
    (n : ℕ) (fs : Dict FamilyEndpoint) (opened : List ℕ)
    → times n (close_all fs opened) ≤ times n opened
unfolding close_all
times-close_all_le n [] opened = omega arith
times-close_all_le n ((f, ep) ∷ fs) opened = ground (
  arith,
  times-close n ep.number opened,
  times-close_all_le n fs (close_endpoint ep.number opened),
)

-- A number is open once at most, and not before it was given out.
once-Reachable :
    (n : ℕ) (held : List ℕ) (s : Terminator)
    → Reachable held s
    → times n s.opened ≤ (if ltb n s.next then 1 else 0)
unfolding new_terminator find_family bring_up_family publish_family idle_sweep stop_terminator
once-Reachable n _ _ made = omega arith
once-Reachable n _ _ (found family now held s r) = elim (Option-cases (lookup family s.families)) [
  | inl h ↦ ground (arith, h, once-Reachable n held s r)
  | inr (ep, h) ↦ ground (arith, h, once-Reachable n held s r)
]
once-Reachable n _ _ (brought_up addr now held s r) = ground (arith, once-Reachable n held s r)
once-Reachable n _ _ (published family ep before held s r) =
    let given = once-Reachable n (before ++ ep.number ∷ held) s r in
    elim (Option-cases (lookup family s.families)) [
      | inl h ↦ ground (arith, h, given)
      | inr (other, h) ↦ ground (arith, h, given, times-close n ep.number s.opened)
    ]
once-Reachable n _ _ (swept now held s r) =
    ground (arith, once-Reachable n held s r, times-sweep n now s.families s.opened)
once-Reachable n _ _ (stopped held s r) =
    ground (arith, once-Reachable n held s r, times-close_all_le n s.families s.opened)

held-Reachable :
    (n : ℕ) (held : List ℕ) (s : Terminator)
    → Reachable held s
    → times n s.opened ≡ in_families n s.families + times n held
unfolding new_terminator bring_up_family idle_sweep stop_terminator
held-Reachable n _ _ made = refl
held-Reachable n _ _ (found family now held s r) =
    ground (arith, find_family-times n now family s, held-Reachable n held s r)
held-Reachable n _ _ (brought_up addr now held s r) = ground (arith, held-Reachable n held s r)
held-Reachable n _ _ (published family ep before held s r) =
    let all = held-Reachable n (before ++ ep.number ∷ held) s r in
    publish_family-times n family ep s (times n (before ++ held))
      (ground (arith, all, times-append n before (ep.number ∷ held), times-append n before held))
held-Reachable n _ _ (swept now held s r) =
    in_families-sweep n now s.families s.opened (times n held) (held-Reachable n held s r)
held-Reachable n _ _ (stopped held s r) =
    ground (arith, times-close_all n s.families s.opened (times n held) (held-Reachable n held s r))

-- However the steps of calls interleave, the endpoints that are open are those of the map and those
-- that a call still holds, and each stands in one place alone: none is lost, and none that is in use
-- is closed.
pub opened-Reachable :
    (n : ℕ) (held : List ℕ) (s : Terminator)
    → Reachable held s
    → (times n s.opened ≡ in_families n s.families + times n held) × (times n s.opened ≤ 1)
opened-Reachable n held s r = (held-Reachable n held s r, ground (arith, once-Reachable n held s r))
