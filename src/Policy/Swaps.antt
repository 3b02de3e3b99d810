-- ===== src/Policy/Swaps.antt =====
-- How the active bundle of internal/policy/runtime.go and its row change.
use safeswitch_router.Common.{◌≡◌, refl, Bool, true, false, Option, none, some, arith, Bytes}
use safeswitch_router.Policy.{
  Bundle, Runtime, new_runtime, done, failed, swap_bundle, load_active, active_bundle,
}

module _ (marshal : Bundle → Option Bytes) (unmarshal : Bytes → Option Bundle) where
  -- If what is marshalled reads back as the bundle, and marshals at all, a bundle that was swapped
  -- in is the active one, is reported to the callback exactly if one is set, and is the active one
  -- again after a restart over the same database.
  pub swap_bundle-load_active :
      (b : Bundle) (raw : Bytes) (r : Runtime)
      → marshal b ≡ some raw
      → unmarshal raw ≡ some b
      → (active_bundle (swap_bundle marshal true (some b) r).0 ≡ some b)
        × ((swap_bundle marshal true (some b) r).1 ≡ done)
        × ((swap_bundle marshal true (some b) r).2 ≡ r.on_swap)
        × (active_bundle
              (load_active unmarshal true
                (new_runtime (swap_bundle marshal true (some b) r).0.row)).0
            ≡ some b)
  unfolding swap_bundle load_active active_bundle new_runtime
  swap_bundle-load_active b raw r h k = ground (arith, h, k)

module _ (marshal : Bundle → Option Bytes) where
  -- A swap that fails, of no bundle, of one that does not marshal or with a database that refuses
  -- the row, changes nothing and calls no callback.
  pub swap_bundle-failed :
      (writes : Bool) (b : Option Bundle) (r : Runtime)
      → (swap_bundle marshal writes b r).1 ≡ failed
      → swap_bundle marshal writes b r ≡ (r, failed, false)
  unfolding swap_bundle
  swap_bundle-failed writes none r h = refl
  swap_bundle-failed writes (some b) r h = ground (arith, h)
