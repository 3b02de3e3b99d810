-- ===== src/Dns/Blocklist/Loading.antt =====
-- What the tables of internal/dns/blocklist.go hold after `Load`, in terms of the rows.
use safeswitch_router.Common.{
  ◌≤◌, ◌≡◌, refl, Bool, true, ◌&&◌, ◌||◌, Option, none, some, List, [], ◌∷◌, ◌++◌, arith, Bytes,
  length, any, any-append, ◌==◌, if◌then◌else◌, same, same_iff, append-nil, append_assoc,
  Option-cases, Bool-cases, inl, inr,
}
use safeswitch_router.Common.Dict.{Dict, lookup, insert, has, has-insert, lookup-insert}
use safeswitch_router.Common.Text.{to_lower}
use safeswitch_router.Dns.Bloom.{add, maybe_contains}
use safeswitch_router.Dns.Bloom.Members.{
  IsSized, new_bloom-IsSized, add-IsSized, maybe_contains-add, maybe_contains-add_self,
}
use safeswitch_router.Dns.Blocklist.{
  StringSet, Blocklist, priority_of, new_blocklist, add_to_category, prefer_category, add_entry,
  normalize, load_row, load_rows, bloom_bits, bloom_hash_funcs,
}

-- A domain with its category.
abbrev pub Entry : Type 0
Entry = Bytes × Bytes

abbrev pub blocked : Bytes → List Entry → Bool
blocked d = any (λ e. same e.0 d)

abbrev pub listed : Bytes → Bytes → List Entry → Bool
listed d c = any (λ e. same e.0 d && same e.1 c)

-- What the tables hold once the entries `es` have gone in.
pub record Holds (es : List Entry) (b : Blocklist) : Type 0 where
  pub domains : (d : Bytes) → has d b.domains ≡ blocked d es
  pub in_categories :
      (wants : Bytes → Bool) (d : Bytes)
      → any (λ e. wants e.0 && has d e.1) b.cat_domains ≡ any (λ e. same e.0 d && wants e.1) es
  pub best_total : (d : Bytes) → has d b.domain_category ≡ blocked d es
  pub best_listed : (d c : Bytes) → lookup d b.domain_category ≡ some c → listed d c es ≡ true
  pub best_least :
      (d c c' : Bytes)
      → lookup d b.domain_category ≡ some c
      → listed d c' es ≡ true
      → priority_of c ≤ priority_of c'
  pub in_bloom : (d : Bytes) → blocked d es ≡ true → maybe_contains d b.bloom ≡ true
  pub sized : IsSized b.bloom

new_blocklist-Holds : Holds [] new_blocklist
unfolding new_blocklist lookup
new_blocklist-Holds = record {
  domains = λ d. refl;
  in_categories = λ wants d. refl;
  best_total = λ d. refl;
  best_listed = λ d c h. cc;
  best_least = λ d c c' h k. cc;
  in_bloom = λ d h. cc;
  sized = new_bloom-IsSized bloom_bits bloom_hash_funcs (omega arith);
}

add_to_category-any :
    (wants : Bytes → Bool) (d cat name : Bytes) (m : Dict StringSet)
    → any (λ e. wants e.0 && has name e.1) (add_to_category cat d m)
      ≡ (any (λ e. wants e.0 && has name e.1) m || (same d name && wants cat))
unfolding add_to_category lookup insert
add_to_category-any wants d cat name [] = ground arith
add_to_category-any wants d cat name ((j, ds) ∷ m) =
    ground (arith, same_iff j cat, has-insert d name tt ds, add_to_category-any wants d cat name m)

-- A domain that is listed in some category is blocked.
pub listed→blocked : (d c : Bytes) (es : List Entry) → listed d c es ≡ true → blocked d es ≡ true
listed→blocked d c [] h = cc
listed→blocked d c (e ∷ es) h = ground (arith, listed→blocked d c es)

module _ (es : List Entry) (b : Blocklist) (v : Holds es b) (d cat : Bytes) where
  abbrev more : List Entry
  more = es ++ (d, cat) ∷ []

  domains_step : (x : Bytes) → has x (insert d tt b.domains) ≡ blocked x more
  domains_step x = ground (
    arith,
    has-insert d x tt b.domains,
    v.domains x,
    any-append (λ e. same e.0 x) es ((d, cat) ∷ []),
  )

  best_total_step : (x : Bytes) → has x (prefer_category d cat b.domain_category) ≡ blocked x more
  unfolding prefer_category
  best_total_step x = ground (
    arith,
    has-insert d x cat b.domain_category,
    v.best_total x,
    same_iff d x,
    any-append (λ e. same e.0 x) es ((d, cat) ∷ []),
  )

  best_listed_step :
      (x c : Bytes)
      → lookup x (prefer_category d cat b.domain_category) ≡ some c
      → listed x c more ≡ true
  unfolding prefer_category
  best_listed_step x c h = ground (
    arith,
    lookup-insert d x cat b.domain_category,
    v.best_listed x c,
    same_iff d x,
    same_iff cat c,
    any-append (λ e. same e.0 x && same e.1 c) es ((d, cat) ∷ []),
  )

  best_least_step :
      (x c c' : Bytes)
      → lookup x (prefer_category d cat b.domain_category) ≡ some c
      → listed x c' more ≡ true
      → priority_of c ≤ priority_of c'
  unfolding prefer_category
  best_least_step x c c' h k = elim (Option-cases (lookup d b.domain_category)) [
    | inl absent ↦ ground (
      arith,
      lookup-insert d x cat b.domain_category,
      v.best_least x c c',
      v.best_total x,
      listed→blocked x c' es,
      same_iff d x,
      same_iff cat c',
      any-append (λ e. same e.0 x && same e.1 c') es ((d, cat) ∷ []),
    )
    | inr (old, found) ↦ ground (
      arith,
      lookup-insert d x cat b.domain_category,
      v.best_least x c c',
      v.best_least x old c',
      same_iff d x,
      same_iff cat c',
      any-append (λ e. same e.0 x && same e.1 c') es ((d, cat) ∷ []),
    )
  ]

  in_categories_step :
      (wants : Bytes → Bool) (x : Bytes)
      → any (λ e. wants e.0 && has x e.1) (add_to_category cat d b.cat_domains)
        ≡ any (λ e. same e.0 x && wants e.1) more
  in_categories_step wants x = ground (
    arith,
    add_to_category-any wants d cat x b.cat_domains,
    v.in_categories wants x,
    any-append (λ e. same e.0 x && wants e.1) es ((d, cat) ∷ []),
  )

  in_bloom_step : (x : Bytes) → blocked x more ≡ true → maybe_contains x (add d b.bloom) ≡ true
  in_bloom_step x h = ground (
    arith,
    same_iff d x,
    v.in_bloom x,
    maybe_contains-add_self d b.bloom v.sized,
    maybe_contains-add d x b.bloom v.sized,
    any-append (λ e. same e.0 x) es ((d, cat) ∷ []),
  )

  add_entry-Holds : Holds more (add_entry d cat b)
  unfolding add_entry
  add_entry-Holds = record {
    domains = domains_step;
    in_categories = in_categories_step;
    best_total = best_total_step;
    best_listed = best_listed_step;
    best_least = best_least_step;
    in_bloom = in_bloom_step;
    sized = add-IsSized d b.bloom v.sized;
  }

module _ (unicode_lower : Bytes → Bytes) where
  -- The rows that count, normalised: those that scan and whose domain is not empty.
  abbrev pub entries : List (Option (Bytes × Bytes)) → List Entry
  entries [] = []
  entries (none ∷ rows) = entries rows
  entries (some (domain, category) ∷ rows) =
      let d = normalize unicode_lower domain in
      let e : Entry = (d, to_lower unicode_lower category) in
      if length d == 0 then entries rows else e ∷ entries rows

  load_rows-Holds_from :
      (rows : List (Option (Bytes × Bytes))) (done : List Entry) (b : Blocklist)
      → Holds done b
      → Holds (done ++ entries rows) (load_rows unicode_lower rows b)
  unfolding load_rows load_row
  load_rows-Holds_from [] done b v = rw (append-nil done) v
  load_rows-Holds_from (none ∷ rows) done b v = load_rows-Holds_from rows done b v
  load_rows-Holds_from (some (domain, category) ∷ rows) done b v =
      let d = normalize unicode_lower domain in
      let c = to_lower unicode_lower category in
      elim (Bool-cases (length d == 0)) [
        | inl empty ↦ rw empty (load_rows-Holds_from rows done b v)
        | inr full ↦
            rw (full, ← append_assoc done ((d, c) ∷ []) (entries rows))
              (load_rows-Holds_from rows (done ++ (d, c) ∷ []) (add_entry d c b)
                (add_entry-Holds done b v d c))
      ]

  -- After a load the tables hold exactly the entries of the rows.
  pub load_rows-Holds :
      (rows : List (Option (Bytes × Bytes)))
      → Holds (entries rows) (load_rows unicode_lower rows new_blocklist)
  load_rows-Holds rows = load_rows-Holds_from rows [] new_blocklist new_blocklist-Holds
