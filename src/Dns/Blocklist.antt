-- ===== src/Dns/Blocklist.antt =====
-- internal/dns/blocklist.go. A Go map is a dictionary, a set is a dictionary into the unit type.
-- The locks only order the calls: `load` swaps in fresh tables at once, so each call sees one state.
pub mod Loading
pub mod Lookups
use safeswitch_router.Common.{
  ℕ, ◌+◌, ◌*◌, ◌^◌, Bool, true, false, ◌&&◌, Option, none, some, List, [], ◌∷◌, map, Bytes, bytes,
  length, any, ltb, ◌==◌, if◌then◌else◌,
}
use safeswitch_router.Common.Dict.{Dict, is_some, lookup, insert, has}
use safeswitch_router.Common.Text.{to_lower, trim_suffix}
use safeswitch_router.Dns.Labels.{walk}
use safeswitch_router.Dns.Bloom.{BloomFilter, new_bloom, add, maybe_contains}

abbrev pub StringSet : Type 0
StringSet = Dict (Unit {0})

abbrev pub bloom_bits : ℕ
bloom_bits = 28755176

abbrev pub bloom_hash_funcs : ℕ
bloom_hash_funcs = 10

abbrev pub category_priority : Dict ℕ
category_priority =
    (bytes "malware", 1)
    ∷ (bytes "phishing", 2)
    ∷ (bytes "scam", 3)
    ∷ (bytes "ransomware", 4)
    ∷ (bytes "cryptojacking", 5)
    ∷ (bytes "fake_banking", 6)
    ∷ (bytes "newly_registered", 7)
    ∷ (bytes "gambling", 20)
    ∷ (bytes "adult", 21)
    ∷ (bytes "social_media", 22)
    ∷ (bytes "games", 23)
    ∷ (bytes "entertainment", 24)
    ∷ (bytes "browsing", 25)
    ∷ (bytes "ads", 50)
    ∷ (bytes "tracking", 51)
    ∷ (bytes "telemetry", 52)
    ∷ (bytes "doh_bypass", 53)
    ∷ []

-- Unknown categories sort last.
unfoldable pub priority_of : Bytes → ℕ
priority_of cat = elim (lookup cat category_priority) [ some p ↦ p | none ↦ 2 ^ 30 ]

pub record Blocklist : Type 0 where
  pub domains : StringSet
  pub cat_domains : Dict StringSet
  pub domain_category : Dict Bytes
  pub bloom : BloomFilter

unfoldable pub new_blocklist : Blocklist
new_blocklist = record {
  domains = [];
  cat_domains = [];
  domain_category = [];
  bloom = new_bloom bloom_bits bloom_hash_funcs;
}

-- `freshCat[cat][d] = struct{}{}`, the inner map made on first use.
unfoldable pub add_to_category : Bytes → Bytes → Dict StringSet → Dict StringSet
add_to_category cat d m = elim (lookup cat m) [
  | some ds ↦ insert cat (insert d tt ds) m
  | none ↦ insert cat ((d, tt) ∷ []) m
]

-- The higher-priority category (the lower number) is kept; the first one wins a tie.
unfoldable pub prefer_category : Bytes → Bytes → Dict Bytes → Dict Bytes
prefer_category d cat m = elim (lookup d m) [
  | none ↦ insert d cat m
  | some existing ↦ if ltb (priority_of cat) (priority_of existing) then insert d cat m else m
]

unfoldable pub add_entry : Bytes → Bytes → Blocklist → Blocklist
add_entry d cat b = record {
  domains = insert d tt b.domains;
  cat_domains = add_to_category cat d b.cat_domains;
  domain_category = prefer_category d cat b.domain_category;
  bloom = add d b.bloom;
}

-- What the database answers: an error of the query, or rows (`none` where the scan of a row fails)
-- and whether the iteration ended in an error.
pub data QueryResult : Type 0 where
  query_failed : QueryResult
  fetched : List (Option (Bytes × Bytes)) → Bool → QueryResult

-- Does a wanted category hold the name? The order in which Go visits the map does not matter.
unfoldable pub in_wanted : StringSet → Bytes → Dict StringSet → Bool
in_wanted wanted name cat_domains = any (λ e. has e.0 wanted && has name e.1) cat_domains

module _ (unicode_lower : Bytes → Bytes) where
  -- `strings.ToLower(strings.TrimSuffix(domain, "."))`
  unfoldable pub normalize : Bytes → Bytes
  normalize domain = to_lower unicode_lower (trim_suffix domain (bytes "."))

  unfoldable pub load_row : Option (Bytes × Bytes) → Blocklist → Blocklist
  load_row none fresh = fresh
  load_row (some (domain, category)) fresh =
      let d = normalize domain in
      if length d == 0 then fresh else add_entry d (to_lower unicode_lower category) fresh

  unfoldable pub load_rows : List (Option (Bytes × Bytes)) → Blocklist → Blocklist
  load_rows [] fresh = fresh
  load_rows (row ∷ rows) fresh = load_rows rows (load_row row fresh)

  -- The new state, and whether `nil` was returned for the error.
  unfoldable pub load : QueryResult → Blocklist → Blocklist × Bool
  load query_failed b = (b, false)
  load (fetched rows failed) b = if failed then (b, false) else (load_rows rows new_blocklist, true)

  unfoldable pub is_blocked : Blocklist → Bytes → Bool
  is_blocked b domain =
      let d = normalize domain in
      if length d == 0
      then false
      else is_some
          (walk (λ name. if maybe_contains name b.bloom then lookup name b.domains else none) d)

  unfoldable pub category_set : List Bytes → StringSet
  category_set [] = []
  category_set (c ∷ cats) = insert (to_lower unicode_lower c) tt (category_set cats)

  unfoldable pub is_blocked_for_categories : Blocklist → Bytes → List Bytes → Bool
  is_blocked_for_categories b domain cats =
      let d = normalize domain in
      let wanted = category_set cats in
      let probe = λ (name : Bytes).
        if maybe_contains name b.bloom
        then (if in_wanted wanted name b.cat_domains then some (tt {0}) else none)
        else none in
      if length cats == 0 then false else if length d == 0 then false else is_some (walk probe d)

  -- The empty category stands for "not blocked".
  unfoldable pub category_for : Blocklist → Bytes → Bytes
  category_for b domain =
      let d = normalize domain in
      let found =
        walk (λ name. if maybe_contains name b.bloom then lookup name b.domain_category else none)
          d in
      if length d == 0 then [] else elim found [ some cat ↦ cat | none ↦ [] ]

unfoldable pub size : Blocklist → ℕ
size b = length b.domains

unfoldable pub categories : Blocklist → List Bytes
categories b = map (λ e. e.0) b.cat_domains
