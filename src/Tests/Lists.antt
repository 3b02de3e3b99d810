-- ===== src/Tests/Lists.antt =====
-- internal/dns/blocklist.go and nrd_blocklist.go on two rows: ads.example.com in "ads", and
-- example.com in "adult".
use safeswitch_router.Common.{
  ◌≡◌, refl, true, false, Option, none, some, List, [], ◌∷◌, arith, Bytes, bytes, any, same, ◌⊎◌,
}
use safeswitch_router.Common.Dict.{lookup}
use safeswitch_router.Common.Text.{to_lower, trim_suffix, index}
use safeswitch_router.Dns.Bloom.{
  BloomFilter, new_bloom, add, maybe_contains, add_from, set_bit, bit_index, hashes, contains_from,
  bit_clear, fnv_write,
}
use safeswitch_router.Dns.Bloom.Members.{new_bloom-IsSized, IsSized}
use safeswitch_router.Dns.Blocklist.{
  StringSet, Blocklist, fetched, load, is_blocked, is_blocked_for_categories, category_for,
  normalize, new_blocklist,
}
use safeswitch_router.Dns.Blocklist.Loading.{blocked, entries}
use safeswitch_router.Dns.Blocklist.Lookups.{
  names, nearest, wants, listed_in, IsBest, is_blocked-load, is_blocked_for_categories-load,
  category_for-load,
}
use safeswitch_router.Dns.Nrd.{is_nrd, nrd_walk}

-- No text here leaves ASCII.
abbrev unicode : Bytes → Bytes
unicode s = s

abbrev rows : List (Option (Bytes × Bytes))
rows =
    some (bytes "Ads.Example.com.", bytes "ads")
    ∷ none
    ∷ some (bytes "example.com", bytes "Adult")
    ∷ []

abbrev small : BloomFilter
small = new_bloom 256 3

small-IsSized : IsSized small
small-IsSized = new_bloom-IsSized 256 3 (omega arith)

-- FNV-1a of the empty text and of "a", as published.
fnv_empty : fnv_write 14695981039346656037 [] ≡ 0xcbf29ce484222325
unfolding fnv_write
fnv_empty = refl

fnv_a : fnv_write 14695981039346656037 (bytes "a") ≡ 0xaf63dc4c8601ec8c
unfolding fnv_write
fnv_a = refl

bloom_run : maybe_contains (bytes "b.com") (add (bytes "a.com") small) ≡ false
unfolding maybe_contains add add_from set_bit bit_index hashes contains_from bit_clear fnv_write
    new_bloom
bloom_run = refl

abbrev loaded : Blocklist
loaded = (load unicode (fetched rows false) new_blocklist).0

is_blocked-load_example :
    is_blocked unicode loaded (bytes "x.example.com")
    ≡ any
        (λ x. blocked x (entries unicode rows))
        (names (normalize unicode (bytes "x.example.com")))
is_blocked-load_example = is_blocked-load unicode rows new_blocklist (bytes "x.example.com")

is_blocked_for_categories-load_example :
    is_blocked_for_categories unicode loaded (bytes "ads.example.com") (bytes "adult" ∷ [])
    ≡ any
        (λ x. listed_in (wants unicode (bytes "adult" ∷ [])) x (entries unicode rows))
        (names (normalize unicode (bytes "ads.example.com")))
is_blocked_for_categories-load_example =
    is_blocked_for_categories-load unicode rows new_blocklist (bytes "ads.example.com")
      (bytes "adult" ∷ [])

-- That name is blocked for "adult", by its parent.
blocked_for_adult :
    is_blocked_for_categories unicode loaded (bytes "ads.example.com") (bytes "adult" ∷ []) ≡ true
unfolding normalize to_lower trim_suffix same
blocked_for_adult =
    is_blocked_for_categories-load unicode rows new_blocklist (bytes "ads.example.com")
      (bytes "adult" ∷ [])

-- The category reported is that of the name itself, "ads".
nearest_name :
    nearest (entries unicode rows) (normalize unicode (bytes "ads.example.com"))
    ≡ some (bytes "ads.example.com")
unfolding normalize to_lower trim_suffix same
nearest_name = refl

category_for-load_example :
    ((nearest (entries unicode rows) (normalize unicode (bytes "ads.example.com")) ≡ none)
      × (is_blocked unicode loaded (bytes "ads.example.com") ≡ false)
      × (category_for unicode loaded (bytes "ads.example.com") ≡ []))
    ⊎ ((x : Bytes) × (nearest (entries unicode rows) (normalize unicode (bytes "ads.example.com"))
          ≡ some x)
        × (is_blocked unicode loaded (bytes "ads.example.com") ≡ true)
        × IsBest (entries unicode rows) x (category_for unicode loaded (bytes "ads.example.com")))
category_for-load_example = category_for-load unicode rows new_blocklist (bytes "ads.example.com")

-- A feed that lists "zip" blocks every name under it.
abbrev feed : StringSet
feed = (bytes "zip", tt) ∷ []

tld_blocked : is_nrd unicode feed (bytes "a.zip") ≡ true
unfolding is_nrd nrd_walk normalize to_lower trim_suffix index lookup same
tld_blocked = refl
