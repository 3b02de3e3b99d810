-- ===== src/Dns/Nrd.antt =====
-- internal/dns/nrd_blocklist.go: the newly-registered domains, a set swapped in whole by `Reload`.
use safeswitch_router.Common.{
  ℕ, zero, suc, ◌+◌, ◌≤◌, ◌≡◌, refl, Bool, true, false, none, some, List, [], ◌∷◌, arith, Bytes,
  length, drop, any, length-drop, ◌==◌, if◌then◌else◌, Option-cases, inl, inr,
}
use safeswitch_router.Common.Dict.{lookup, insert, has}
use safeswitch_router.Common.Text.{index}
use safeswitch_router.Dns.Blocklist.{StringSet, normalize}
use safeswitch_router.Dns.Labels.{self_and_parents, parents-index-none, parents-index-some}
use safeswitch_router.Dns.Blocklist.Lookups.{names}

-- What the database answers: an error of the query, or rows up to the first that fails to scan
-- (the flag says that one did, or that the iteration ended in an error).
pub data QueryResult : Type 0 where
  query_failed : QueryResult
  fetched : List Bytes → Bool → QueryResult

unfoldable pub collect : List Bytes → StringSet → StringSet
collect [] m = m
collect (d ∷ rows) m = collect rows (insert d tt m)

-- The new set, and whether `nil` was returned for the error.
unfoldable pub reload : QueryResult → StringSet → StringSet × Bool
reload query_failed m = (m, false)
reload (fetched rows failed) m = if failed then (m, false) else (collect rows [], true)

-- The walk, one unit of fuel for each byte left: `next` is what stands behind the first dot.
unfoldable pub nrd_walk : ℕ → StringSet → Bytes → Bool
nrd_walk zero m current = has current m
nrd_walk (suc fuel) m current = elim (lookup current m) [
  | some _ ↦ true
  | none ↦ elim (index b'.' current) [
    | none ↦ false
    | some dot ↦
        let next = drop (dot + 1) current in
        let rest = nrd_walk fuel m next in
        elim (index b'.' next) [ none ↦ has next m | some _ ↦ rest ]
  ]
]

unfoldable pub is_nrd : (Bytes → Bytes) → StringSet → Bytes → Bool
is_nrd unicode_lower m domain =
    let d = normalize unicode_lower domain in
    if length d == 0 then false else if length m == 0 then false else nrd_walk (length d) m d

nrd_walk-names :
    (fuel : ℕ) (m : StringSet) (d : Bytes)
    → length d ≤ fuel
    → nrd_walk fuel m d ≡ any (λ x. has x m) (self_and_parents d)
unfolding nrd_walk
nrd_walk-names zero m [] h = ground arith
nrd_walk-names zero m (c ∷ d) h = absurd (omega arith)
nrd_walk-names (suc fuel) m d h = elim (Option-cases (index b'.' d)) [
  | inl last ↦ ground (arith, last, parents-index-none d last)
  | inr (dot, e) ↦
      let next = drop (dot + 1) d in
      let (split, inside) = parents-index-some d dot e in
      ground (
        arith,
        e,
        split,
        parents-index-none next,
        nrd_walk-names fuel m next (omega (arith, length-drop (dot + 1) d)),
      )
]

any_empty : (ds : List Bytes) → any (λ x. has {V = Unit {0}} x []) ds ≡ false
unfolding lookup
any_empty [] = refl
any_empty (d ∷ ds) = any_empty ds

-- A domain counts as newly registered exactly if it or one of its parents is in the set, the bare
-- top-level domain included: one that a feed lists takes every domain under it along.
pub is_nrd-names :
    (unicode_lower : Bytes → Bytes) (m : StringSet) (domain : Bytes)
    → is_nrd unicode_lower m domain ≡ any (λ x. has x m) (names (normalize unicode_lower domain))
unfolding is_nrd
is_nrd-names unicode_lower [] domain =
    let ds = names (normalize unicode_lower domain) in ground (arith, any_empty ds)
is_nrd-names unicode_lower (e ∷ m) domain =
    let d = normalize unicode_lower domain in ground (arith, nrd_walk-names (length d) (e ∷ m) d)
