-- ===== src/Relay/Registry/Picks.antt =====
-- What `PickHealthyNode` of internal/relay/registry.go promises.
use safeswitch_router.Common.{ℕ, Bytes}
use safeswitch_router.Relay.Registry.{NodeRegistry, members, pick_healthy_node}
use safeswitch_router.Relay.Registry.Order.{IsBest, first_healthy-sort_from}
use safeswitch_router.Relay.Registry.Index.{Reachable, index_of-Reachable}

-- In every registry that calls lead to, where no node comes back under another family, the node
-- that is picked for a family is one of the family's nodes, is healthy, and no healthy node of the
-- family comes before it by preference and time of joining; if none is picked, none is healthy.
pub pick_healthy_node-Reachable :
    (now : ℕ) (family : Bytes) (r : NodeRegistry)
    → Reachable r
    → IsBest r.heap now (members r.heap family r.by_node) (pick_healthy_node now family r)
unfolding pick_healthy_node
pick_healthy_node-Reachable now family r v =
    rw (index_of-Reachable r family v)
      (first_healthy-sort_from r.heap now (members r.heap family r.by_node))
