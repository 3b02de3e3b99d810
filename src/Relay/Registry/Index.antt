-- ===== src/Relay/Registry/Index.antt =====
-- The two maps of internal/relay/registry.go agree: the index of a family is the sorted list of its
-- nodes.
use safeswitch_router.Common.{
  ℕ, ◌≡◌, refl, sym, ap, ◌∙◌, Bool, true, false, not, Option, none, some, List, [], ◌∷◌, arith, All,
  Bytes, length, ◌==◌, same, same_iff, if◌then◌else◌, Bool-cases, Option-cases, inl, inr,
}
use safeswitch_router.Common.Dict.{
  Dict, lookup, delete, lookup-insert, lookup-delete, keyed, keyed-insert, keyed-delete,
}
use safeswitch_router.Relay.Registry.{
  NodeHealth, Heap, write, NodeRegistry, new_node_registry, sort_from, members,
  rebuild_family_index_locked, stamped, add, remove, touch, index_of, set_preference,
}
use safeswitch_router.Relay.Registry.Heaps.{
  SameKey, sort_from_congr, members_congr, All-members, bounded, bounded-insert, bounded-delete,
  members-insert, members-delete,
}

sort_members : NodeRegistry → Bytes → List ℕ
sort_members r family = sort_from r.heap [] (members r.heap family r.by_node)

sort_none : (heap : Heap) (nodes : List ℕ) → length nodes ≡ 0 → sort_from heap [] nodes ≡ []
unfolding sort_from
sort_none heap [] h = refl
sort_none heap (a ∷ nodes) h = absurd (omega arith)

index_of-rebuild :
    (family other : Bytes) (r : NodeRegistry)
    → index_of other (rebuild_family_index_locked family r)
      ≡ (if same family other then sort_members r other else index_of other r)
unfolding index_of rebuild_family_index_locked sort_members sort_from
index_of-rebuild family other r = ground (
  arith,
  same_iff family other,
  sort_none r.heap (members r.heap family r.by_node),
  lookup-insert family other (sort_from r.heap [] (members r.heap family r.by_node)) r.by_family,
  lookup-delete family other r.by_family,
)

-- What holds of a registry between two calls.
record IsSound (r : NodeRegistry) : Type 0 where
  below : bounded r.next r.by_node ≡ true
  one_each : keyed r.by_node ≡ true
  indexed : (family : Bytes) → index_of family r ≡ sort_members r family

-- A node that is known by this id is of the same family.
abbrev pub keeps_family : NodeHealth → NodeRegistry → Bool
keeps_family h r = elim (lookup h.node_id r.by_node) [
  | none ↦ true
  | some a ↦ same (r.heap a).family_id h.family_id
]

new_node_registry-IsSound : IsSound new_node_registry
unfolding new_node_registry index_of sort_members sort_from members lookup
new_node_registry-IsSound = record { below = refl; one_each = refl; indexed = λ family. refl }

All-members_below :
    (heap : Heap) (next : ℕ) (h : NodeHealth) (family : Bytes) (m : Dict ℕ)
    → bounded next m ≡ true
    → All (SameKey heap (write heap next h)) (members heap family m)
unfolding members
All-members_below heap next h family [] v = tt
All-members_below heap next h family ((id, a) ∷ m) v =
    let rest = All-members_below heap next h family m (ground (arith, v)) in
    elim (Bool-cases (same (heap a).family_id family)) [
      | inl e ↦ rw e (unfold write in (ground (arith, v), ground (arith, v)), rest)
      | inr e ↦ rw e rest
    ]

elsewhere_of_kept :
    (heap : Heap) (family other : Bytes) (o : Option ℕ)
    → (elim o [ none ↦ true | some a ↦ same (heap a).family_id family ]) ≡ true
    → same family other ≡ false
    → (elim o [ none ↦ true | some a ↦ not (same (heap a).family_id other) ]) ≡ true
elsewhere_of_kept heap family other none h e = refl
elsewhere_of_kept heap family other (some a) h e =
    ground (arith, h, e, same_iff (heap a).family_id family)

-- A write that keeps families, below `next`, and sorts all nodes of other families alike.
write_elsewhere :
    (heap : Heap) (a : ℕ) (h : NodeHealth) (family : Bytes) (m : Dict ℕ)
    → h.family_id ≡ (heap a).family_id
    → same h.family_id family ≡ false
    → sort_from (write heap a h) [] (members (write heap a h) family m)
      ≡ sort_from heap [] (members heap family m)
unfolding write
write_elsewhere heap a h family m e f =
    ap (sort_from (write heap a h) [])
      (members_congr heap (write heap a h) family m (λ b. ground (arith, e)))
    ∙ sort_from_congr heap (write heap a h) [] (members heap family m) tt (
        All-members heap (write heap a h) family m
          (λ b k. (ground (arith, e, f, k), ground (arith, e, f, k))))

touched :
    (now a : ℕ) (r : NodeRegistry)
    → IsSound r
    → IsSound (record r { heap = write r.heap a (record (r.heap a) { last_seen = now }) })
unfolding sort_members index_of write
touched now a r v =
    let heap' = write r.heap a (record (r.heap a) { last_seen = now }) in
    record {
      below = v.below;
      one_each = v.one_each;
      indexed = λ family.
          v.indexed family
          ∙ sym (
              ap (sort_from heap' [])
                (members_congr r.heap heap' family r.by_node (λ b. ground arith))
              ∙ sort_from_congr r.heap heap' [] (members r.heap family r.by_node) tt (
                  All-members r.heap heap' family r.by_node (λ b k. (ground arith, ground arith))));
    }

touch-IsSound : (now : ℕ) (id : Bytes) (r : NodeRegistry) → IsSound r → IsSound (touch now id r)
unfolding touch
touch-IsSound now id r v =
    elim (lookup id r.by_node)
      as (λ o. IsSound (elim o [
        | none ↦ r
        | some a ↦ record r { heap = write r.heap a (record (r.heap a) { last_seen = now }) }
      ])) [ none ↦ v | some a ↦ touched now a r v ]

rebuild-IsSound :
    (family : Bytes) (r : NodeRegistry)
    → bounded r.next r.by_node ≡ true
    → keyed r.by_node ≡ true
    → ((other : Bytes) → same family other ≡ false → index_of other r ≡ sort_members r other)
    → IsSound (rebuild_family_index_locked family r)
rebuild-IsSound family r b k others = record {
  below = unfold rebuild_family_index_locked in b;
  one_each = unfold rebuild_family_index_locked in k;
  indexed = λ other. index_of-rebuild family other r ∙ (elim (Bool-cases (same family other)) [
    | inl e ↦ rw e (unfold rebuild_family_index_locked sort_members in refl)
    | inr e ↦ rw e (others other e ∙ unfold rebuild_family_index_locked sort_members in refl)
  ]);
}

add-IsSound :
    (now : ℕ) (h : NodeHealth) (r : NodeRegistry)
    → keeps_family h r ≡ true
    → IsSound r
    → IsSound (add now h r)
unfolding add sort_members stamped
add-IsSound now h r kept v =
    let h' = stamped now h in
    rebuild-IsSound h.family_id _ (bounded-insert h.node_id r.next r.by_node v.below)
      (keyed-insert h.node_id r.next r.by_node v.one_each)
      (λ other e.
        unfold index_of in
        v.indexed other
        ∙ sym (
            ap (sort_from (write r.heap r.next h') []) (
              members-insert r.heap h' h.node_id other r.next r.by_node v.below e
                (elsewhere_of_kept r.heap h.family_id other (lookup h.node_id r.by_node) kept e))
            ∙ sort_from_congr r.heap (write r.heap r.next h') [] (members r.heap other r.by_node) tt
                (All-members_below r.heap r.next h' other r.by_node v.below)))

removed :
    (id : Bytes) (a : ℕ) (r : NodeRegistry)
    → lookup id r.by_node ≡ some a
    → IsSound r
    → IsSound (
        rebuild_family_index_locked
          (r.heap a).family_id
          (record r { by_node = delete id r.by_node }))
unfolding sort_members
removed id a r e v =
    rebuild-IsSound (r.heap a).family_id _ (bounded-delete id r.next r.by_node v.below)
      (keyed-delete id r.by_node v.one_each)
      (λ other f.
        unfold index_of in
        v.indexed other
        ∙ ap (sort_from r.heap [])
            (sym (members-delete r.heap id other r.by_node v.one_each (ground (arith, e, f)))))

remove-IsSound : (id : Bytes) (r : NodeRegistry) → IsSound r → IsSound (remove id r).0
unfolding remove
remove-IsSound id r v = elim (Option-cases (lookup id r.by_node)) [
  | inl e ↦ rw (e, remove) v
  | inr (a, e) ↦ rw (e, remove) (removed id a r e v)
]

preferred :
    (pref a : ℕ) (r : NodeRegistry)
    → IsSound r
    → IsSound (
        rebuild_family_index_locked
          (r.heap a).family_id
          (record r { heap = write r.heap a (record (r.heap a) { pref = pref }) }))
unfolding sort_members
preferred pref a r v =
    let h = record (r.heap a) { pref = pref } in
    rebuild-IsSound (r.heap a).family_id _ v.below v.one_each (λ other f.
      unfold index_of in v.indexed other ∙ sym (write_elsewhere r.heap a h other r.by_node refl f))

set_preference-IsSound :
    (id : Bytes) (pref : ℕ) (r : NodeRegistry) → IsSound r → IsSound (set_preference id pref r)
unfolding set_preference
set_preference-IsSound id pref r v = elim (Option-cases (lookup id r.by_node)) [
  | inl e ↦ rw (e, set_preference) v
  | inr (a, e) ↦
      rw (e, set_preference)
        (elim (Bool-cases ((r.heap a).pref == pref)) [
          | inl f ↦ rw f v
          | inr f ↦ rw f (preferred pref a r v)
        ])
]

-- The registries that calls lead to, where no node comes back under another family.
pub data Reachable : NodeRegistry → Type 0 where
  made : Reachable new_node_registry
  added :
      (now : ℕ) (h : NodeHealth) (r : NodeRegistry)
      → keeps_family h r ≡ true
      → Reachable r
      → Reachable (add now h r)
  removed_one : (id : Bytes) (r : NodeRegistry) → Reachable r → Reachable (remove id r).0
  touched_one : (now : ℕ) (id : Bytes) (r : NodeRegistry) → Reachable r → Reachable (touch now id r)
  preferred_one :
      (id : Bytes) (pref : ℕ) (r : NodeRegistry)
      → Reachable r
      → Reachable (set_preference id pref r)

Reachable-IsSound : (r : NodeRegistry) → Reachable r → IsSound r
Reachable-IsSound _ made = new_node_registry-IsSound
Reachable-IsSound _ (added now h r k v) = add-IsSound now h r k (Reachable-IsSound r v)
Reachable-IsSound _ (removed_one id r v) = remove-IsSound id r (Reachable-IsSound r v)
Reachable-IsSound _ (touched_one now id r v) = touch-IsSound now id r (Reachable-IsSound r v)
Reachable-IsSound _ (preferred_one id pref r v) =
    set_preference-IsSound id pref r (Reachable-IsSound r v)

-- The index of a family in such a registry.
pub index_of-Reachable :
    (r : NodeRegistry) (family : Bytes)
    → Reachable r
    → index_of family r ≡ sort_from r.heap [] (members r.heap family r.by_node)
unfolding sort_members
index_of-Reachable r family v = (Reachable-IsSound r v).indexed family
