-- ===== src/Relay/Registry.antt =====
-- internal/relay/registry.go. Both maps of the source hold pointers, so the nodes stand on a heap: a
-- node is an address, and a write through one map is seen through the other. An address is never
-- used again. Go visits a map in a random order; here it is the order of insertion, which only
-- matters for nodes with one preference and one time of joining. Times are nanoseconds, 0 for Go's
-- zero time; `time.Now()` is an argument.
pub mod Order
pub mod Heaps
pub mod Index
pub mod Picks
use safeswitch_router.Common.{
  ℕ, ◌+◌, ◌-◌, Bool, true, false, not, ◌&&◌, Option, none, some, List, [], ◌∷◌, ◌++◌, map, Bytes,
  bytes, length, ltb, leb, ◌==◌, same, if◌then◌else◌,
}
use safeswitch_router.Common.Dict.{Dict, lookup, insert, delete}

abbrev pub pref_secondary : ℕ
pref_secondary = 0

abbrev pub pref_primary : ℕ
pref_primary = 1

-- `conn` is the number of a connection.
pub record NodeHealth : Type 0 where
  pub node_id : Bytes
  pub family_id : Bytes
  pub conn : ℕ
  pub pref : ℕ
  pub last_seen : ℕ
  pub joined_at : ℕ
  pub packets_in : ℕ
  pub packets_out : ℕ

abbrev pub Heap : Type 0
Heap = ℕ → NodeHealth

unfoldable pub write : Heap → ℕ → NodeHealth → Heap
write heap a h b = if b == a then h else heap b

abbrev pub staleness_threshold : ℕ
staleness_threshold = 60000000000

-- `next` is the first address that is free.
pub record NodeRegistry : Type 0 where
  pub heap : Heap
  pub next : ℕ
  pub by_node : Dict ℕ
  pub by_family : Dict (List ℕ)

-- What a free address holds is never read.
abbrev pub no_node : NodeHealth
no_node = record {
  node_id = [];
  family_id = [];
  conn = 0;
  pref = 0;
  last_seen = 0;
  joined_at = 0;
  packets_in = 0;
  packets_out = 0;
}

unfoldable pub new_node_registry : NodeRegistry
new_node_registry = record { heap = λ a. no_node; next = 0; by_node = []; by_family = [] }

-- The comparison of the sort: primary nodes first, then the older ones.
unfoldable pub less : NodeHealth → NodeHealth → Bool
less h k = if not (h.pref == k.pref) then ltb k.pref h.pref else ltb h.joined_at k.joined_at

-- `sort.SliceStable`, by insertion.
unfoldable pub put_sorted : Heap → ℕ → List ℕ → List ℕ
put_sorted heap a [] = a ∷ []
put_sorted heap a (b ∷ nodes) =
    if less (heap a) (heap b) then a ∷ b ∷ nodes else b ∷ put_sorted heap a nodes

unfoldable pub sort_from : Heap → List ℕ → List ℕ → List ℕ
sort_from heap sorted [] = sorted
sort_from heap sorted (a ∷ nodes) = sort_from heap (put_sorted heap a sorted) nodes

-- The nodes of a family.
unfoldable pub members : Heap → Bytes → Dict ℕ → List ℕ
members heap family [] = []
members heap family ((id, a) ∷ by_node) =
    if same (heap a).family_id family
    then a ∷ members heap family by_node
    else members heap family by_node

unfoldable pub rebuild_family_index_locked : Bytes → NodeRegistry → NodeRegistry
rebuild_family_index_locked family r =
    let nodes = members r.heap family r.by_node in
    record r {
      by_family =
          if length nodes == 0
          then delete family r.by_family
          else insert family (sort_from r.heap [] nodes) r.by_family;
    }

-- The times that `Add` fills in.
unfoldable pub stamped : ℕ → NodeHealth → NodeHealth
stamped now h =
    let joined = if h.joined_at == 0 then now else h.joined_at in
    record h { joined_at = joined; last_seen = if h.last_seen == 0 then joined else h.last_seen }

unfoldable pub add : ℕ → NodeHealth → NodeRegistry → NodeRegistry
add now h r = rebuild_family_index_locked h.family_id (record r {
  heap = write r.heap r.next (stamped now h);
  next = r.next + 1;
  by_node = insert h.node_id r.next r.by_node;
})

-- The registry, and the entry that was removed.
unfoldable pub remove : Bytes → NodeRegistry → NodeRegistry × Option ℕ
remove node_id r = elim (lookup node_id r.by_node) [
  | none ↦ (r, none)
  | some a ↦ (
    rebuild_family_index_locked (r.heap a).family_id
        (record r { by_node = delete node_id r.by_node }),
    some a,
  )
]

unfoldable pub touch : ℕ → Bytes → NodeRegistry → NodeRegistry
touch now node_id r = elim (lookup node_id r.by_node) [
  | none ↦ r
  | some a ↦ record r { heap = write r.heap a (record (r.heap a) { last_seen = now }) }
]

-- A clock that runs backwards makes a node healthy here as in the source.
unfoldable pub is_healthy : ℕ → NodeHealth → Bool
is_healthy now h = leb (now - h.last_seen) staleness_threshold

unfoldable pub index_of : Bytes → NodeRegistry → List ℕ
index_of family r = elim (lookup family r.by_family) [ none ↦ [] | some nodes ↦ nodes ]

unfoldable pub first_healthy : Heap → ℕ → List ℕ → Option ℕ
first_healthy heap now [] = none
first_healthy heap now (a ∷ nodes) =
    if is_healthy now (heap a) then some a else first_healthy heap now nodes

unfoldable pub pick_healthy_node : ℕ → Bytes → NodeRegistry → Option ℕ
pick_healthy_node now family r = first_healthy r.heap now (index_of family r)

pub record FamilyStatus : Type 0 where
  pub healthy_count : ℕ
  pub total_count : ℕ
  pub last_seen_ago : ℕ
  pub has_fallback : Bool

unfoldable pub count_healthy : Heap → ℕ → List ℕ → ℕ
count_healthy heap now [] = 0
count_healthy heap now (a ∷ nodes) =
    if is_healthy now (heap a)
    then count_healthy heap now nodes + 1
    else count_healthy heap now nodes

unfoldable pub freshest_of : Heap → List ℕ → ℕ → ℕ
freshest_of heap [] freshest = freshest
freshest_of heap (a ∷ nodes) freshest =
    freshest_of heap nodes
      (if ltb freshest (heap a).last_seen then (heap a).last_seen else freshest)

-- The time since the freshest node is not negative while the clock does not run backwards.
unfoldable pub status : ℕ → Bytes → NodeRegistry → FamilyStatus
status now family r =
    let nodes = index_of family r in
    let freshest = freshest_of r.heap nodes 0 in
    record {
      healthy_count = count_healthy r.heap now nodes;
      total_count = length nodes;
      last_seen_ago = if freshest == 0 then 0 else now - freshest;
      has_fallback = ltb 0 (length nodes);
    }

unfoldable pub set_preference : Bytes → ℕ → NodeRegistry → NodeRegistry
set_preference node_id pref r = elim (lookup node_id r.by_node) [
  | none ↦ r
  | some a ↦
      if (r.heap a).pref == pref
      then r
      else rebuild_family_index_locked (r.heap a).family_id
          (record r { heap = write r.heap a (record (r.heap a) { pref = pref }) })
]

unfoldable pub stale_of : Heap → ℕ → Dict ℕ → List Bytes
stale_of heap now [] = []
stale_of heap now ((id, a) ∷ by_node) =
    if ltb staleness_threshold (now - (heap a).last_seen)
    then id ∷ stale_of heap now by_node
    else stale_of heap now by_node

unfoldable pub sweep_stale : ℕ → NodeRegistry → List Bytes
sweep_stale now r = stale_of r.heap now r.by_node
