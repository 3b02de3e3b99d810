-- ===== src/Controlsync/Bundles/Enforcements.antt =====
-- Which rows internal/controlsync/enforcementsync.go acts on.
use safeswitch_router.Common.{
  ℕ, ◌-◌, ◌<◌, ◌≡◌, refl, ap, Bool, true, false, not, ◌&&◌, ◌||◌, Option, none, some, List, [], ◌∷◌,
  arith, Bytes, length, ltb, any, same, same_iff, ◌==◌, if◌then◌else◌, Bool-cases, inl, inr,
}
use safeswitch_router.Common.Dict.{Dict, lookup, insert, has, keyed, has-insert, keyed-insert}
use safeswitch_router.Controlsync.Tables.{lookup-delete_where, keyed-delete_where}
use safeswitch_router.Controlsync.Bundles.{
  SyncRow, row_key, EnforcementState, forget_old, filter_rows, cools, poll_and_enforce,
  dedupe_window,
}

abbrev pub is_keyed : Bytes → List SyncRow → Bool
is_keyed k = any (λ row. same (row_key row) k)

-- Each row has a key of its own.
abbrev pub distinct : List SyncRow → Bool
distinct [] = true
distinct (row ∷ rows) = not (is_keyed (row_key row) rows) && distinct rows

-- The new rows are those with a key that was not seen, one for each; all keys are seen behind.
filter_rows-is_keyed :
    (now : ℕ) (k : Bytes) (rows : List SyncRow) (dedupe : Dict ℕ)
    → (is_keyed k (filter_rows now rows dedupe).1 ≡ (is_keyed k rows && not (has k dedupe)))
      × (has k (filter_rows now rows dedupe).0 ≡ (is_keyed k rows || has k dedupe))
unfolding filter_rows
filter_rows-is_keyed now k [] dedupe = (refl, refl)
filter_rows-is_keyed now k (row ∷ rows) dedupe =
    let (skipped, seen) = filter_rows-is_keyed now k rows dedupe in
    let (taken, seen') = filter_rows-is_keyed now k rows (insert (row_key row) now dedupe) in
    elim (Bool-cases (same (row_key row) k)) [
      | inl m ↦
          let same_has : has (row_key row) dedupe ≡ has k dedupe =
            ap (λ x. has x dedupe) (ground (arith, m, same_iff (row_key row) k)) in
          (
            ground (arith, m, same_has, skipped, taken, has-insert (row_key row) k now dedupe),
            ground (arith, m, same_has, seen, seen', has-insert (row_key row) k now dedupe),
          )
      | inr m ↦ (
        ground (arith, m, skipped, taken, has-insert (row_key row) k now dedupe),
        ground (arith, m, seen, seen', has-insert (row_key row) k now dedupe),
      )
    ]

filter_rows-distinct :
    (now : ℕ) (rows : List SyncRow) (dedupe : Dict ℕ)
    → distinct (filter_rows now rows dedupe).1 ≡ true
unfolding filter_rows
filter_rows-distinct now [] dedupe = refl
filter_rows-distinct now (row ∷ rows) dedupe =
    let (taken, _) =
      filter_rows-is_keyed now (row_key row) rows (insert (row_key row) now dedupe) in
    ground (
      arith,
      taken,
      has-insert (row_key row) (row_key row) now dedupe,
      same_iff (row_key row) (row_key row),
      filter_rows-distinct now rows dedupe,
      filter_rows-distinct now rows (insert (row_key row) now dedupe),
    )

-- Was the key seen within the last 30 seconds?
abbrev pub is_recent : ℕ → Option ℕ → Bool
is_recent now none = false
is_recent now (some t) = not (ltb dedupe_window (now - t))

has-forget_old :
    (now : ℕ) (k : Bytes) (dedupe : Dict ℕ)
    → keyed dedupe ≡ true
    → has k (forget_old now dedupe) ≡ is_recent now (lookup k dedupe)
unfolding forget_old
has-forget_old now k dedupe u =
    ground (arith, lookup-delete_where (λ t. ltb dedupe_window (now - t)) k dedupe u)

abbrev is_new : Dict ℕ → SyncRow → Bool
is_new dedupe row = not (has (row_key row) dedupe)

filter_rows-none :
    (now : ℕ) (rows : List SyncRow) (dedupe : Dict ℕ)
    → (length (filter_rows now rows dedupe).1 == 0) ≡ not (any (is_new dedupe) rows)
unfolding filter_rows
filter_rows-none now [] dedupe = refl
filter_rows-none now (row ∷ rows) dedupe = ground (arith, filter_rows-none now rows dedupe)

abbrev recent_row : ℕ → Dict ℕ → SyncRow → Bool
recent_row now dedupe row = is_recent now (lookup (row_key row) dedupe)

any-is_new :
    (now : ℕ) (rows : List SyncRow) (dedupe : Dict ℕ)
    → keyed dedupe ≡ true
    → any (is_new (forget_old now dedupe)) rows ≡ any (λ row. not (recent_row now dedupe row)) rows
any-is_new now [] dedupe u = refl
any-is_new now (row ∷ rows) dedupe u =
    ground (arith, has-forget_old now (row_key row) dedupe u, any-is_new now rows dedupe u)

keyed-filter_rows :
    (now : ℕ) (rows : List SyncRow) (dedupe : Dict ℕ)
    → keyed dedupe ≡ true
    → keyed (filter_rows now rows dedupe).0 ≡ true
unfolding filter_rows
keyed-filter_rows now [] dedupe u = u
keyed-filter_rows now (row ∷ rows) dedupe u = ground (
  arith,
  keyed-filter_rows now rows dedupe u,
  keyed-filter_rows now rows (insert (row_key row) now dedupe)
      (keyed-insert (row_key row) now dedupe u),
)

-- The bundle is fetched exactly if a row has a key that was not seen within 30 seconds, and the last
-- bundle is not younger than 2 seconds. In both cases the keys of all rows count as seen behind, also
-- where the bundle was not fetched.
pub poll_and_enforce-fetches :
    (now checked_at applied_at : ℕ) (rows : List SyncRow) (s : EnforcementState)
    → keyed s.dedupe ≡ true
    → 0 < length rows
    → let o = poll_and_enforce now checked_at applied_at rows s in
      (o.1 ≡ (
        any (λ row. not (is_recent now (lookup (row_key row) s.dedupe))) rows
        && not (cools checked_at s.last_bundle_apply)))
      × ((k : Bytes) → has k o.0.dedupe ≡ (is_keyed k rows || is_recent now (lookup k s.dedupe)))
      × (keyed o.0.dedupe ≡ true)
      × (o.0.last_bundle_apply ≡ (if o.1 then some applied_at else s.last_bundle_apply))
unfolding poll_and_enforce forget_old
poll_and_enforce-fetches now checked_at applied_at rows s u l =
    let old = forget_old now s.dedupe in
    let none = filter_rows-none now rows old in
    let any_new = any-is_new now rows s.dedupe u in
    let kept_keys : keyed (forget_old now s.dedupe) ≡ true =
      unfold forget_old in keyed-delete_where (λ t. ltb dedupe_window (now - t)) s.dedupe u in
    let keys = keyed-filter_rows now rows old kept_keys in
    (
      ground (arith, l, none, any_new),
      λ k.
          ground
            (arith, l, (filter_rows-is_keyed now k rows old).1, has-forget_old now k s.dedupe u),
      ground (arith, l, keys),
      ground (arith, l, none, any_new),
    )
