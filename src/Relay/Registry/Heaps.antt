-- ===== src/Relay/Registry/Heaps.antt =====
-- What a write to the heap of internal/relay/registry.go leaves of a family's nodes and their order.
use safeswitch_router.Common.{
  ℕ, ◌+◌, ◌≡◌, refl, ap, ◌∙◌, Bool, true, false, not, none, some, List, [], ◌∷◌, arith, All, Bytes,
  any, leb, same, same_iff, if◌then◌else◌, Bool-cases, inl, inr,
}
use safeswitch_router.Common.Dict.{Dict, lookup, insert, delete, keyed, delete-absent}
use safeswitch_router.Relay.Registry.{NodeHealth, Heap, write, less, put_sorted, sort_from, members}

-- The node at `b` is sorted alike on both heaps.
abbrev pub SameKey : Heap → Heap → ℕ → Type 0
SameKey heap heap' b = ((heap' b).pref ≡ (heap b).pref) × ((heap' b).joined_at ≡ (heap b).joined_at)

module _ (heap heap' : Heap) where
  pub All-put_sorted :
      (a : ℕ) (nodes : List ℕ)
      → SameKey heap heap' a
      → All (SameKey heap heap') nodes
      → All (SameKey heap heap') (put_sorted heap a nodes)
  unfolding put_sorted
  All-put_sorted a [] h v = (h, tt)
  All-put_sorted a (b ∷ nodes) h v =
      elim (less (heap a) (heap b))
        as (λ t.
          All (SameKey heap heap') (if t then a ∷ b ∷ nodes else b ∷ put_sorted heap a nodes)) [
            | true ↦ (h, v)
            | false ↦ (v.0, All-put_sorted a nodes h v.1)
          ]

  pub put_sorted_congr :
      (a : ℕ) (nodes : List ℕ)
      → SameKey heap heap' a
      → All (SameKey heap heap') nodes
      → put_sorted heap' a nodes ≡ put_sorted heap a nodes
  unfolding put_sorted less
  put_sorted_congr a [] h v = refl
  put_sorted_congr a (b ∷ nodes) h v = ground (arith, h, v.0, put_sorted_congr a nodes h v.1)

  pub sort_from_congr :
      (sorted nodes : List ℕ)
      → All (SameKey heap heap') sorted
      → All (SameKey heap heap') nodes
      → sort_from heap' sorted nodes ≡ sort_from heap sorted nodes
  unfolding sort_from
  sort_from_congr sorted [] h v = refl
  sort_from_congr sorted (a ∷ nodes) h v =
      ap (λ l. sort_from heap' l nodes) (put_sorted_congr a sorted v.0 h)
      ∙ sort_from_congr (put_sorted heap a sorted) nodes (All-put_sorted a sorted v.0 h) v.1

  -- All nodes keep their families.
  pub members_congr :
      (family : Bytes) (m : Dict ℕ)
      → ((b : ℕ) → (heap' b).family_id ≡ (heap b).family_id)
      → members heap' family m ≡ members heap family m
  unfolding members
  members_congr family [] h = refl
  members_congr family ((id, a) ∷ m) h = ground (arith, h a, members_congr family m h)

  pub All-members :
      (family : Bytes) (m : Dict ℕ)
      → ((b : ℕ) → same (heap b).family_id family ≡ true → SameKey heap heap' b)
      → All (SameKey heap heap') (members heap family m)
  unfolding members
  All-members family [] h = tt
  All-members family ((id, a) ∷ m) h = elim (Bool-cases (same (heap a).family_id family)) [
    | inl e ↦ rw e (h a e, All-members family m h)
    | inr e ↦ rw e (All-members family m h)
  ]

-- No address of the map is `next` or above.
abbrev pub bounded : ℕ → Dict ℕ → Bool
bounded next m = not (any (λ e. leb next e.1) m)

pub bounded-insert :
    (id : Bytes) (next : ℕ) (m : Dict ℕ)
    → bounded next m ≡ true
    → bounded (next + 1) (insert id next m) ≡ true
unfolding insert
bounded-insert id next [] h = ground arith
bounded-insert id next ((j, w) ∷ m) h =
    ground (arith, h, bounded-insert id next m, bounded_more next m)
  where
    bounded_more : (next : ℕ) (m : Dict ℕ) → bounded next m ≡ true → bounded (next + 1) m ≡ true
    bounded_more next [] h = refl
    bounded_more next ((j, w) ∷ m) h = ground (arith, h, bounded_more next m)

pub bounded-delete :
    (id : Bytes) (next : ℕ) (m : Dict ℕ) → bounded next m ≡ true → bounded next (delete id m) ≡ true
unfolding delete
bounded-delete id next [] h = refl
bounded-delete id next ((j, w) ∷ m) h = ground (arith, h, bounded-delete id next m)

-- The node known by this id, if there is one, is of another family.
abbrev pub is_elsewhere : Heap → Bytes → Bytes → Dict ℕ → Bool
is_elsewhere heap id family m = elim (lookup id m) [
  | none ↦ true
  | some a ↦ not (same (heap a).family_id family)
]

-- A new node of another family changes no members.
pub members-insert :
    (heap : Heap) (h : NodeHealth) (id family : Bytes) (next : ℕ) (m : Dict ℕ)
    → bounded next m ≡ true
    → same h.family_id family ≡ false
    → is_elsewhere heap id family m ≡ true
    → members (write heap next h) family (insert id next m) ≡ members heap family m
unfolding members insert lookup write
members-insert heap h id family next [] v e f = ground (arith, e)
members-insert heap h id family next ((j, w) ∷ m) v e f =
    ground (arith, v, e, f, members-insert heap h id family next m, members_below m)
  where
    members_below :
        (m : Dict ℕ)
        → bounded next m ≡ true
        → members (write heap next h) family m ≡ members heap family m
    members_below [] v = refl
    members_below ((j, w) ∷ m) v = ground (arith, v, members_below m)

pub members-delete :
    (heap : Heap) (id family : Bytes) (m : Dict ℕ)
    → keyed m ≡ true
    → is_elsewhere heap id family m ≡ true
    → members heap family (delete id m) ≡ members heap family m
unfolding members delete lookup
members-delete heap id family [] v f = refl
members-delete heap id family ((j, w) ∷ m) v f =
    ground (arith, v, f, same_iff j id, members-delete heap id family m, delete-absent id m)
