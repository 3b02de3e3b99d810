-- ===== src/Controlsync/Tables.antt =====
-- The SQLite tables behind internal/controlsync: a table is a dictionary by its primary key, and a
-- transaction is a state that counts only behind a commit. Which statements fail is a parameter.
use safeswitch_router.Common.{
  ◌≡◌, refl, Bool, true, false, Option, none, some, [], ◌∷◌, arith, Bytes, same, same_iff,
  if◌then◌else◌,
}
use safeswitch_router.Common.Dict.{Dict, lookup, insert, has, keyed, lookup-insert, keyed-insert}

-- Which statements of a transaction succeed.
pub record Statements : Type 0 where
  pub begins : Bool
  pub deletes : Bool
  pub prepares : Bool
  pub inserts : Bytes → Bool
  pub writes_hash : Bool
  pub commits : Bool

module _ {ℓ} {V : Type ℓ} where
  -- `INSERT OR IGNORE`: a key that is there keeps its row.
  unfoldable pub insert_or_ignore : Bytes → V → Dict V → Dict V
  insert_or_ignore k v m = if has k m then m else insert k v m

  pub lookup-insert_or_ignore :
      (k j : Bytes) (v : V) (m : Dict V)
      → lookup j (insert_or_ignore k v m)
        ≡ (if has j m then lookup j m else if same k j then some v else none)
  unfolding insert_or_ignore
  lookup-insert_or_ignore k j v m = ground (arith, lookup-insert k j v m, same_iff k j)

  pub keyed-insert_or_ignore :
      (k : Bytes) (v : V) (m : Dict V) → keyed m ≡ true → keyed (insert_or_ignore k v m) ≡ true
  unfolding insert_or_ignore
  keyed-insert_or_ignore k v m h = ground (arith, h, keyed-insert k v m h)

  -- `DELETE FROM t WHERE p`
  unfoldable pub delete_where : (V → Bool) → Dict V → Dict V
  delete_where p [] = []
  delete_where p ((k, v) ∷ m) = if p v then delete_where p m else (k, v) ∷ delete_where p m

  -- The row of a key, unless it was deleted.
  abbrev pub kept : (V → Bool) → Option V → Option V
  kept p none = none
  kept p (some v) = if p v then none else some v

  delete_where-absent :
      (p : V → Bool) (k : Bytes) (m : Dict V) → has k m ≡ false → lookup k (delete_where p m) ≡ none
  unfolding delete_where lookup
  delete_where-absent p k [] h = refl
  delete_where-absent p k ((j, v) ∷ m) h = ground (arith, h, delete_where-absent p k m)

  pub lookup-delete_where :
      (p : V → Bool) (k : Bytes) (m : Dict V)
      → keyed m ≡ true
      → lookup k (delete_where p m) ≡ kept p (lookup k m)
  unfolding delete_where lookup
  lookup-delete_where p k [] h = refl
  lookup-delete_where p k ((j, v) ∷ m) h =
      ground (arith, h, same_iff j k, lookup-delete_where p k m, delete_where-absent p k m)

  pub keyed-delete_where :
      (p : V → Bool) (m : Dict V) → keyed m ≡ true → keyed (delete_where p m) ≡ true
  unfolding delete_where
  keyed-delete_where p [] h = refl
  keyed-delete_where p ((j, v) ∷ m) h =
      ground (arith, h, keyed-delete_where p m, delete_where-absent p j m)
