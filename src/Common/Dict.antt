-- ===== src/Common/Dict.antt =====
-- Go maps keyed by strings, as association lists with at most one entry a key.
use mathlib.Core.Path.{◌≡◌, refl, ap}
use mathlib.Core.Bool.{Bool, true, false, not, ◌&&◌, ◌||◌}
use mathlib.Core.Option.{Option, none, some}
use mathlib.Core.List.{List, [], ◌∷◌}
use native.Mathlib.Omega.{arith}
use safeswitch_router.Common.Logic.{if◌then◌else◌}
use safeswitch_router.Common.Slices.{Bytes, same, same_iff, same_refl}

abbrev pub Dict {ℓ} : Type ℓ → Type ℓ
Dict V = List (Bytes × V)

abbrev pub is_some {ℓ} : {A : Type ℓ} → Option A → Bool
is_some none = false
is_some (some a) = true

module _ {ℓ} {V : Type ℓ} where
  -- `v, ok := m[k]`
  unfoldable pub lookup : Bytes → Dict V → Option V
  lookup k [] = none
  lookup k ((j, v) ∷ m) = if same j k then some v else lookup k m

  -- `m[k] = v`
  unfoldable pub insert : Bytes → V → Dict V → Dict V
  insert k v [] = (k, v) ∷ []
  insert k v ((j, w) ∷ m) = if same j k then (k, v) ∷ m else (j, w) ∷ insert k v m

  -- `delete(m, k)`
  unfoldable pub delete : Bytes → Dict V → Dict V
  delete k [] = []
  delete k ((j, w) ∷ m) = if same j k then delete k m else (j, w) ∷ delete k m

  -- `_, ok := m[k]`
  abbrev pub has : Bytes → Dict V → Bool
  has k m = is_some (lookup k m)

  pub lookup-insert :
      (k j : Bytes) (v : V) (m : Dict V)
      → lookup j (insert k v m) ≡ (if same k j then some v else lookup j m)
  unfolding lookup insert
  lookup-insert k j v [] = refl
  lookup-insert k j v ((i, w) ∷ m) =
      ground (arith, same_iff k j, same_iff i k, same_iff i j, lookup-insert k j v m)

  pub lookup-delete :
      (k j : Bytes) (m : Dict V) → lookup j (delete k m) ≡ (if same k j then none else lookup j m)
  unfolding lookup delete
  lookup-delete k j [] = ground arith
  lookup-delete k j ((i, w) ∷ m) =
      ground (arith, same_iff k j, same_iff i k, same_iff i j, lookup-delete k j m)

  pub lookup-same : (j k : Bytes) (m : Dict V) → same j k ≡ true → lookup j m ≡ lookup k m
  lookup-same j k m h = let e : j ≡ k = ground (arith, h, same_iff j k) in ap (λ x. lookup x m) e

  pub lookup-insert_self : (k : Bytes) (v : V) (m : Dict V) → lookup k (insert k v m) ≡ some v
  lookup-insert_self k v m = simp (lookup-insert, same_refl)

module _ {ℓ} {V : Type ℓ} where
  pub has-insert : (k j : Bytes) (v : V) (m : Dict V) → has j (insert k v m) ≡ (same k j || has j m)
  has-insert k j v m = ground (arith, lookup-insert k j v m)

module _ {ℓ} {V : Type ℓ} where
  -- Each key stands once.
  abbrev pub keyed : Dict V → Bool
  keyed [] = true
  keyed ((k, v) ∷ m) = not (has k m) && keyed m

  pub delete-absent : (k : Bytes) (m : Dict V) → has k m ≡ false → delete k m ≡ m
  unfolding delete lookup
  delete-absent k [] h = refl
  delete-absent k ((j, v) ∷ m) h = ground (arith, h, delete-absent k m)

  pub keyed-insert : (k : Bytes) (v : V) (m : Dict V) → keyed m ≡ true → keyed (insert k v m) ≡ true
  unfolding insert lookup
  keyed-insert k v [] h = refl
  keyed-insert k v ((j, w) ∷ m) h =
      ground (arith, h, same_iff j k, same_iff k j, has-insert k j v m, keyed-insert k v m)

  has-delete_absent : (k j : Bytes) (m : Dict V) → has j m ≡ false → has j (delete k m) ≡ false
  has-delete_absent k j m h = ground (arith, h, lookup-delete k j m)

  pub keyed-delete : (k : Bytes) (m : Dict V) → keyed m ≡ true → keyed (delete k m) ≡ true
  unfolding delete
  keyed-delete k [] h = refl
  keyed-delete k ((j, w) ∷ m) h = ground (arith, h, keyed-delete k m, has-delete_absent k j m)
