-- ===== src/Dns/Blocklist/Lookups.antt =====
-- `IsBlocked`, `IsBlockedForCategories` and `CategoryFor` of internal/dns/blocklist.go on tables
-- that hold the entries `es`: the Bloom filter changes no answer.
use mathlib.Core.Path.{fun_ext}
use safeswitch_router.Common.{
  ◌≤◌, ◌≡◌, refl, sym, ap, ◌∙◌, Bool, true, false, ◌&&◌, Option, none, some, List, [], ◌∷◌, arith,
  Bytes, length, any, ◌==◌, if◌then◌else◌, same, Option-cases, Bool-cases, ◌⊎◌, inl, inr,
}
use safeswitch_router.Common.Dict.{is_some, lookup, has, has-insert}
use safeswitch_router.Common.Text.{to_lower}
use safeswitch_router.Dns.Labels.{walk, walk-first_some, first_some, self_and_parents}
use safeswitch_router.Dns.Bloom.{maybe_contains}
use safeswitch_router.Dns.Blocklist.{
  Blocklist, fetched, priority_of, normalize, load, is_blocked, category_set, in_wanted,
  is_blocked_for_categories, category_for,
}
use safeswitch_router.Dns.Blocklist.Loading.{
  Entry, blocked, listed, Holds, entries, load_rows-Holds,
}

module _ {R : Type 0} where
  is_some-first_some :
      (probe : Bytes → Option R) (ds : List Bytes)
      → is_some (first_some probe ds) ≡ any (λ d. is_some (probe d)) ds
  is_some-first_some probe [] = refl
  is_some-first_some probe (d ∷ ds) = ground (arith, is_some-first_some probe ds)

pub any_ext {ℓ} :
    {A : Type ℓ} (p q : A → Bool) (xs : List A) → ((x : A) → p x ≡ q x) → any p xs ≡ any q xs
any_ext p q [] h = refl
any_ext p q (x ∷ xs) h = ground (arith, h x, any_ext p q xs h)

-- The names that a domain is looked up under, none for the empty name.
abbrev pub names : Bytes → List Bytes
names d = if length d == 0 then [] else self_and_parents d

any-false {ℓ} : {A : Type ℓ} (xs : List A) → any (λ x. false) xs ≡ false
any-false [] = refl
any-false (x ∷ xs) = any-false xs

-- Does some entry under the name carry a category that passes?
abbrev pub listed_in : (Bytes → Bool) → Bytes → List Entry → Bool
listed_in wants d = any (λ e. same e.0 d && wants e.1)

-- Does one of the wanted categories equal `c`, in lower case?
abbrev pub wants : (Bytes → Bytes) → List Bytes → Bytes → Bool
wants unicode_lower cats c = any (λ w. same (to_lower unicode_lower w) c) cats

-- The nearest of the names of `d` under which an entry stands.
abbrev pub nearest : List Entry → Bytes → Option Bytes
nearest es d = first_some (λ x. if blocked x es then some x else none) (names d)

listed_in_none : (d : Bytes) (es : List Entry) → listed_in (λ c. false) d es ≡ false
listed_in_none d [] = refl
listed_in_none d (e ∷ es) = ground (arith, listed_in_none d es)

listed_in→blocked :
    (wants : Bytes → Bool) (d : Bytes) (es : List Entry)
    → listed_in wants d es ≡ true
    → blocked d es ≡ true
listed_in→blocked wants d [] h = cc
listed_in→blocked wants d (e ∷ es) h = ground (arith, listed_in→blocked wants d es)

module _ (unicode_lower : Bytes → Bytes) (es : List Entry) (b : Blocklist) (v : Holds es b) where
  blocked_probe :
      (x : Bytes)
      → is_some (if maybe_contains x b.bloom then lookup x b.domains else none) ≡ blocked x es
  blocked_probe x = ground (arith, v.domains x, v.in_bloom x)

  -- A domain is blocked exactly if an entry names it or one of its parents.
  is_blocked_iff :
      (domain : Bytes)
      → is_blocked unicode_lower b domain
        ≡ any (λ x. blocked x es) (names (normalize unicode_lower domain))
  unfolding is_blocked
  is_blocked_iff domain =
      let d = normalize unicode_lower domain in
      let probe = λ (x : Bytes). if maybe_contains x b.bloom then lookup x b.domains else none in
      let found : is_some (walk probe d) ≡ any (λ x. blocked x es) (self_and_parents d) =
        ap is_some (walk-first_some probe d)
        ∙ is_some-first_some probe (self_and_parents d)
        ∙ any_ext _ _ (self_and_parents d) blocked_probe in
      elim (Bool-cases (length d == 0)) [ inl e ↦ rw e | inr e ↦ rw (e, found) ]

  has-category_set :
      (cats : List Bytes) (c : Bytes)
      → has c (category_set unicode_lower cats) ≡ wants unicode_lower cats c
  unfolding category_set
  has-category_set [] c = unfold lookup in refl
  has-category_set (w ∷ cats) c = ground (
    arith,
    has-insert (to_lower unicode_lower w) c tt (category_set unicode_lower cats),
    has-category_set cats c,
  )

  in_wanted_iff :
      (cats : List Bytes) (x : Bytes)
      → in_wanted (category_set unicode_lower cats) x b.cat_domains
        ≡ listed_in (wants unicode_lower cats) x es
  unfolding in_wanted
  in_wanted_iff cats x =
      v.in_categories (λ c. has c (category_set unicode_lower cats)) x
      ∙ any_ext _ _ es (λ e. ap (λ y. same e.0 x && y) (has-category_set cats e.1))

  wanted_probe :
      (cats : List Bytes) (x : Bytes)
      → is_some (
          if maybe_contains x b.bloom
          then (if in_wanted (category_set unicode_lower cats) x b.cat_domains
              then some (tt {0})
              else none)
          else none)
        ≡ listed_in (wants unicode_lower cats) x es
  wanted_probe cats x =
      ground (
        arith,
        in_wanted_iff cats x,
        listed_in→blocked (wants unicode_lower cats) x es,
        v.in_bloom x,
      )

  is_blocked_for_categories_iff :
      (domain : Bytes) (cats : List Bytes)
      → is_blocked_for_categories unicode_lower b domain cats
        ≡ any
            (λ x. listed_in (wants unicode_lower cats) x es)
            (names (normalize unicode_lower domain))
  unfolding is_blocked_for_categories
  is_blocked_for_categories_iff domain [] =
      let ds = names (normalize unicode_lower domain) in
      sym (any_ext _ (λ x. false) ds (λ x. listed_in_none x es) ∙ any-false ds)
  is_blocked_for_categories_iff domain (c ∷ cats) =
      let d = normalize unicode_lower domain in
      let wanted = category_set unicode_lower (c ∷ cats) in
      let probe = λ (x : Bytes).
        if maybe_contains x b.bloom
        then (if in_wanted wanted x b.cat_domains then some (tt {0}) else none)
        else none in
      let found : is_some (walk probe d)
          ≡ any (λ x. listed_in (wants unicode_lower (c ∷ cats)) x es) (self_and_parents d) =
        ap is_some (walk-first_some probe d)
        ∙ is_some-first_some probe (self_and_parents d)
        ∙ any_ext _ _ (self_and_parents d) (wanted_probe (c ∷ cats)) in
      ground (arith, found)

  category_probe :
      (x : Bytes)
      → (if maybe_contains x b.bloom then lookup x b.domain_category else none)
        ≡ lookup x b.domain_category
  category_probe x = ground (arith, v.best_total x, v.in_bloom x)

  first_some-nearest :
      (ds : List Bytes)
      → first_some (λ x. lookup x b.domain_category) ds
        ≡ (elim (first_some (λ x. if blocked x es then some x else none) ds) [
          | none ↦ none
          | some x ↦ lookup x b.domain_category
        ])
  first_some-nearest [] = refl
  first_some-nearest (x ∷ ds) = ground (arith, v.best_total x, first_some-nearest ds)

  category_for_iff :
      (domain : Bytes)
      → category_for unicode_lower b domain ≡ (elim (nearest es (normalize unicode_lower domain)) [
        | none ↦ []
        | some x ↦ elim (lookup x b.domain_category) [ some c ↦ c | none ↦ [] ]
      ])
  unfolding category_for
  category_for_iff domain =
      let d = normalize unicode_lower domain in
      let probe =
        λ (x : Bytes). if maybe_contains x b.bloom then lookup x b.domain_category else none in
      let found : walk probe d ≡ first_some (λ x. lookup x b.domain_category) (self_and_parents d) =
        walk-first_some probe d
        ∙ ap (λ p. first_some p (self_and_parents d)) (fun_ext category_probe) in
      ground (arith, found, first_some-nearest (self_and_parents d))

  nearest_blocked :
      (ds : List Bytes) (x : Bytes)
      → first_some (λ y. if blocked y es then some y else none) ds ≡ some x
      → blocked x es ≡ true
  nearest_blocked [] x h = cc
  nearest_blocked (d ∷ ds) x h = ground (arith, nearest_blocked ds x)

  nearest_none :
      (ds : List Bytes)
      → any (λ y. blocked y es) ds
        ≡ is_some (first_some (λ y. if blocked y es then some y else none) ds)
  nearest_none [] = refl
  nearest_none (d ∷ ds) = ground (arith, nearest_none ds)

-- `c` is a category of `x` with the least priority number.
pub record IsBest (es : List Entry) (x c : Bytes) : Type 0 where
  pub is_listed : listed x c es ≡ true
  pub is_least : (c' : Bytes) → listed x c' es ≡ true → priority_of c ≤ priority_of c'

module _ (unicode_lower : Bytes → Bytes) (es : List Entry) (b : Blocklist) (v : Holds es b) where
  category_of_nearest :
      (domain x : Bytes)
      → nearest es (normalize unicode_lower domain) ≡ some x
      → IsBest es x (category_for unicode_lower b domain)
  category_of_nearest domain x h =
      let ds = names (normalize unicode_lower domain) in
      let held : has x b.domain_category ≡ true =
        v.best_total x ∙ nearest_blocked unicode_lower es b v ds x h in
      elim (Option-cases (lookup x b.domain_category)) [
        | inl absent ↦ absurd (ground (arith, held, absent))
        | inr (c, found) ↦
            let is_c : category_for unicode_lower b domain ≡ c =
              category_for_iff unicode_lower es b v domain ∙ rw (h, found) in
            rw is_c (record {
              is_listed = v.best_listed x c found;
              is_least = λ c' l. v.best_least x c c' found l;
            })
      ]

-- The tables after a load that succeeds, whatever they were before.
module _ (unicode_lower : Bytes → Bytes) (rows : List (Option (Bytes × Bytes)))
    (old : Blocklist) where
  abbrev loaded : Blocklist
  loaded = (load unicode_lower (fetched rows false) old).0

  abbrev listed_entries : List Entry
  listed_entries = entries unicode_lower rows

  loaded-Holds : Holds listed_entries loaded
  unfolding load
  loaded-Holds = load_rows-Holds unicode_lower rows

  -- A domain is blocked exactly if a row of the database names it or one of its parents, up to
  -- letter case and one trailing dot; the Bloom filter in front of the tables changes no answer.
  pub is_blocked-load :
      (domain : Bytes)
      → is_blocked unicode_lower loaded domain
        ≡ any (λ x. blocked x listed_entries) (names (normalize unicode_lower domain))
  is_blocked-load = is_blocked_iff unicode_lower listed_entries loaded loaded-Holds

  -- A domain is blocked for a list of categories exactly if a row names it or one of its parents
  -- in one of these categories.
  pub is_blocked_for_categories-load :
      (domain : Bytes) (cats : List Bytes)
      → is_blocked_for_categories unicode_lower loaded domain cats
        ≡ any
            (λ x. listed_in (wants unicode_lower cats) x listed_entries)
            (names (normalize unicode_lower domain))
  is_blocked_for_categories-load =
      is_blocked_for_categories_iff unicode_lower listed_entries loaded loaded-Holds

  -- The category reported for a domain is that of the nearest name with a row, whichever name was
  -- asked about: one that a row gives it, with the least priority number. With no row it is empty.
  pub category_for-load :
      (domain : Bytes)
      → ((nearest listed_entries (normalize unicode_lower domain) ≡ none)
          × (is_blocked unicode_lower loaded domain ≡ false)
          × (category_for unicode_lower loaded domain ≡ []))
        ⊎ ((x : Bytes) × (nearest listed_entries (normalize unicode_lower domain) ≡ some x)
            × (is_blocked unicode_lower loaded domain ≡ true)
            × IsBest listed_entries x (category_for unicode_lower loaded domain))
  category_for-load domain =
      let d = normalize unicode_lower domain in
      let asked =
        is_blocked-load domain
        ∙ nearest_none unicode_lower listed_entries loaded loaded-Holds (names d) in
      elim (Option-cases (nearest listed_entries d)) [
        | inl e ↦ inl (
          e,
          asked ∙ rw e,
          category_for_iff unicode_lower listed_entries loaded loaded-Holds domain ∙ rw e,
        )
        | inr (x, e) ↦ inr (
          x,
          e,
          asked ∙ rw e,
          category_of_nearest unicode_lower listed_entries loaded loaded-Holds domain x e,
        )
      ]
