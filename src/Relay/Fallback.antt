-- ===== src/Relay/Fallback.antt =====
-- internal/relay/fallback.go. Times are numbers, 0 for Go's zero time; `time.Now()` is an argument.
-- The counters are 64-bit words: an `int64` that counts down is the word below, in two's complement.
use safeswitch_router.Common.{
  ℕ, ◌+◌, ◌-◌, ◌%◌, ◌^◌, ◌≡◌, refl, Bool, true, false, not, ◌&&◌, ◌||◌, List, [], ◌∷◌, map, arith,
  Bytes, length, ltb, ◌==◌, same, same_iff, if◌then◌else◌,
}
use safeswitch_router.Common.Dict.{
  Dict, lookup, insert, delete, has, has-insert, lookup-delete, keyed, keyed-insert, keyed-delete,
  delete-absent,
}

pub record FallbackResolver : Type 0 where
  pub fallback_endpoint : Bytes
  pub active : Dict ℕ
  pub packets_forwarded : ℕ
  pub packets_dropped : ℕ
  pub families_degraded : ℕ

unfoldable pub new_fallback_resolver : Bytes → FallbackResolver
new_fallback_resolver endpoint = record {
  fallback_endpoint = endpoint;
  active = [];
  packets_forwarded = 0;
  packets_dropped = 0;
  families_degraded = 0;
}

abbrev pub with_active : Dict ℕ → ℕ → FallbackResolver → FallbackResolver
with_active active degraded f = record {
  fallback_endpoint = f.fallback_endpoint;
  active = active;
  packets_forwarded = f.packets_forwarded;
  packets_dropped = f.packets_dropped;
  families_degraded = degraded;
}

-- The new state, and whether this is a transition.
unfoldable pub enter_fallback : ℕ → Bytes → FallbackResolver → FallbackResolver × Bool
enter_fallback now family f =
    if has family f.active
    then (f, false)
    else (with_active (insert family now f.active) ((f.families_degraded + 1) % 2 ^ 64) f, true)

unfoldable pub exit_fallback : Bytes → FallbackResolver → FallbackResolver × Bool
exit_fallback family f = if not (has family f.active) then (f, false) else (
  with_active (delete family f.active) ((f.families_degraded + (2 ^ 64 - 1)) % 2 ^ 64) f,
  true,
)

unfoldable pub is_active_family : FallbackResolver → Bytes → Bool
is_active_family f family = has family f.active

abbrev pub endpoint : FallbackResolver → Bytes
endpoint f = f.fallback_endpoint

unfoldable pub record_forwarded : FallbackResolver → FallbackResolver
record_forwarded f = record {
  fallback_endpoint = f.fallback_endpoint;
  active = f.active;
  packets_forwarded = (f.packets_forwarded + 1) % 2 ^ 64;
  packets_dropped = f.packets_dropped;
  families_degraded = f.families_degraded;
}

unfoldable pub record_dropped : FallbackResolver → FallbackResolver
record_dropped f = record {
  fallback_endpoint = f.fallback_endpoint;
  active = f.active;
  packets_forwarded = f.packets_forwarded;
  packets_dropped = (f.packets_dropped + 1) % 2 ^ 64;
  families_degraded = f.families_degraded;
}

pub record FallbackStats : Type 0 where
  pub forwarded : ℕ
  pub dropped : ℕ
  pub degraded : ℕ
  pub active_families : List Bytes
  pub oldest_entry : ℕ

unfoldable pub oldest_of : Dict ℕ → ℕ → ℕ
oldest_of [] oldest = oldest
oldest_of ((family, since) ∷ active) oldest =
    oldest_of active (if oldest == 0 || ltb since oldest then since else oldest)

-- The clock does not run backwards, so the difference is not negative.
unfoldable pub stats : ℕ → FallbackResolver → FallbackStats
stats now f =
    let oldest = oldest_of f.active 0 in
    record {
      forwarded = f.packets_forwarded;
      dropped = f.packets_dropped;
      degraded = f.families_degraded;
      active_families = map (λ e. e.0) f.active;
      oldest_entry = if oldest == 0 then 0 else now - oldest;
    }

-- The states that calls lead to.
pub data Reachable : FallbackResolver → Type 0 where
  made : (where_to : Bytes) → Reachable (new_fallback_resolver where_to)
  entered :
      (now : ℕ) (family : Bytes) (f : FallbackResolver)
      → Reachable f
      → Reachable (enter_fallback now family f).0
  exited :
      (family : Bytes) (f : FallbackResolver) → Reachable f → Reachable (exit_fallback family f).0
  forwarded_one : (f : FallbackResolver) → Reachable f → Reachable (record_forwarded f)
  dropped_one : (f : FallbackResolver) → Reachable f → Reachable (record_dropped f)

length-delete :
    (k : Bytes) (m : Dict ℕ) → keyed m ≡ true → has k m ≡ true → length (delete k m) + 1 ≡ length m
unfolding delete lookup
length-delete k [] v h = absurd (ground (arith, h))
length-delete k ((j, w) ∷ m) v h =
    ground (arith, h, v, same_iff j k, delete-absent k m, length-delete k m)

length-insert_new :
    (k : Bytes) (n : ℕ) (m : Dict ℕ) → has k m ≡ false → length (insert k n m) ≡ length m + 1
unfolding insert lookup
length-insert_new k n [] h = refl
length-insert_new k n ((j, w) ∷ m) h = ground (arith, h, length-insert_new k n m)

-- The counter is the number of families, as a word.
abbrev IsCounted : FallbackResolver → Type 0
IsCounted f = (keyed f.active ≡ true) × (f.families_degraded ≡ length f.active % 2 ^ 64)

enter_fallback-IsCounted :
    (now : ℕ) (family : Bytes) (f : FallbackResolver)
    → IsCounted f
    → IsCounted (enter_fallback now family f).0
unfolding enter_fallback
enter_fallback-IsCounted now family f v = (
  ground (arith, v.0, keyed-insert family now f.active),
  ground (arith, v.1, length-insert_new family now f.active),
)

exit_fallback-IsCounted :
    (family : Bytes) (f : FallbackResolver) → IsCounted f → IsCounted (exit_fallback family f).0
unfolding exit_fallback
exit_fallback-IsCounted family f v = (
  ground (arith, v.0, keyed-delete family f.active),
  ground (arith, v.0, v.1, length-delete family f.active),
)

-- In every state that calls lead to, each degraded family is listed once, and the counter of
-- degraded families, whatever the order of entries and exits, is their number as a 64-bit word.
pub families_degraded-Reachable :
    (f : FallbackResolver)
    → Reachable f
    → (keyed f.active ≡ true) × (f.families_degraded ≡ length f.active % 2 ^ 64)
unfolding new_fallback_resolver record_forwarded record_dropped
families_degraded-Reachable _ (made where_to) = (refl, omega arith)
families_degraded-Reachable _ (entered now family f r) =
    enter_fallback-IsCounted now family f (families_degraded-Reachable f r)
families_degraded-Reachable _ (exited family f r) =
    exit_fallback-IsCounted family f (families_degraded-Reachable f r)
families_degraded-Reachable _ (forwarded_one f r) = families_degraded-Reachable f r
families_degraded-Reachable _ (dropped_one f r) = families_degraded-Reachable f r

-- After an entry a family is degraded, after an exit it is not, the other families are as before,
-- and both say whether they changed anything.
pub is_active_family-enter_fallback :
    (now : ℕ) (family other : Bytes) (f : FallbackResolver)
    → (is_active_family (enter_fallback now family f).0 other
        ≡ (same family other || is_active_family f other))
      × ((enter_fallback now family f).1 ≡ not (is_active_family f family))
      × (is_active_family (exit_fallback family f).0 other
          ≡ (not (same family other) && is_active_family f other))
      × ((exit_fallback family f).1 ≡ is_active_family f family)
unfolding is_active_family enter_fallback exit_fallback
is_active_family-enter_fallback now family other f = (
  ground (arith, same_iff family other, has-insert family other now f.active),
  ground arith,
  ground (arith, same_iff family other, lookup-delete family other f.active),
  ground arith,
)
