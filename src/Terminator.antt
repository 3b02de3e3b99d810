-- ===== src/Terminator.antt =====
-- internal/terminator/service.go: the endpoints that the relay brings up for families in the fallback.
-- An endpoint is a number, under which its socket and its WireGuard device are open; the address that
-- the kernel gives, the configuration fetched and the success of each step are arguments. What holds
-- the lock is one step; `ensure_family` has three, between which other calls may run. Times are
-- nanoseconds.
pub mod Endpoints
use safeswitch_router.Common.{
  ℕ, suc, ◌+◌, ◌-◌, Bool, true, false, ◌&&◌, Option, none, some, List, [], ◌∷◌, Bytes, length, ltb,
  same, ◌==◌, if◌then◌else◌,
}
use safeswitch_router.Common.Dict.{Dict, lookup, insert}

abbrev pub idle_teardown : ℕ
idle_teardown = 300_000_000_000

pub record FamilyEndpoint : Type 0 where
  pub number : ℕ
  pub addr : Bytes
  pub seen_at : ℕ

-- `opened` has the endpoints whose socket and device are open.
pub record Terminator : Type 0 where
  pub families : Dict FamilyEndpoint
  pub opened : List ℕ
  pub next : ℕ

unfoldable pub new_terminator : Terminator
new_terminator = record { families = []; opened = []; next = 0 }

-- `ep.conn.Close()` and `ep.device.Close()`
unfoldable pub close_endpoint : ℕ → List ℕ → List ℕ
close_endpoint n [] = []
close_endpoint n (m ∷ opened) = if m == n then opened else m ∷ close_endpoint n opened

-- `ep.lastSeen = now` behind the family's pointer, in EnsureFamily and in the read loop.
unfoldable pub bump : Bytes → ℕ → Dict FamilyEndpoint → Dict FamilyEndpoint
bump family now [] = []
bump family now ((f, ep) ∷ families) =
    if same f family
    then (f, record ep { seen_at = now }) ∷ families
    else (f, ep) ∷ bump family now families

-- The first step: the address of an endpoint that is up.
unfoldable pub find_family : Bytes → ℕ → Terminator → Terminator × Option Bytes
find_family family now s = elim (lookup family s.families) [
  | none ↦ (s, none)
  | some ep ↦ (record s { families = bump family now s.families }, some ep.addr)
]

-- The second, without the lock. A socket that was bound is closed again if the device fails.
unfoldable pub bring_up_family :
    Bool → Option Bytes → Bool → ℕ → Terminator → Terminator × Option FamilyEndpoint
bring_up_family fetches bound starts now s = elim bound [
  | none ↦ (s, none)
  | some addr ↦
      if fetches && starts
      then (
        record s { opened = s.next ∷ s.opened; next = suc s.next },
        some (record { number = s.next; addr = addr; seen_at = now }),
      )
      else (s, none)
]

-- The third: the endpoint of another call that was faster is kept.
unfoldable pub publish_family : Bytes → FamilyEndpoint → Terminator → Terminator × Bytes
publish_family family ep s = elim (lookup family s.families) [
  | some existing ↦ (record s { opened = close_endpoint ep.number s.opened }, existing.addr)
  | none ↦ (record s { families = insert family ep s.families }, ep.addr)
]

-- The endpoints left, and those open.
unfoldable pub sweep_from : ℕ → Dict FamilyEndpoint → List ℕ → Dict FamilyEndpoint × List ℕ
sweep_from now [] opened = ([], opened)
sweep_from now ((f, ep) ∷ families) opened =
    let idle = ltb idle_teardown (now - ep.seen_at) in
    let rest = sweep_from now families (if idle then close_endpoint ep.number opened else opened) in
    if idle then rest else ((f, ep) ∷ rest.0, rest.1)

unfoldable pub idle_sweep : ℕ → Terminator → Terminator
idle_sweep now s =
    let swept = sweep_from now s.families s.opened in
    record s { families = swept.0; opened = swept.1 }

unfoldable pub close_all : Dict FamilyEndpoint → List ℕ → List ℕ
close_all [] opened = opened
close_all ((f, ep) ∷ families) opened = close_all families (close_endpoint ep.number opened)

unfoldable pub stop_terminator : Terminator → Terminator
stop_terminator s = record s { families = []; opened = close_all s.families s.opened }
