-- ===== src/Tests/Terminator.antt =====
-- internal/terminator with two calls for one family.
use safeswitch_router.Common.{◌+◌, ◌≤◌, ◌≡◌, refl, true, some, [], ◌∷◌, bytes, same}
use safeswitch_router.Common.Dict.{lookup, insert}
use safeswitch_router.Terminator.{
  Terminator, FamilyEndpoint, new_terminator, bring_up_family, publish_family, close_endpoint,
}
use safeswitch_router.Terminator.Endpoints.{
  times, in_families, made, brought_up, published, opened-Reachable,
}

-- Both bring an endpoint up, and the second is published first.
abbrev first_up : Terminator
first_up = (bring_up_family true (some (bytes "127.0.0.1:4")) true 1 new_terminator).0

abbrev both_up : Terminator
both_up = (bring_up_family true (some (bytes "127.0.0.1:5")) true 2 first_up).0

abbrev one_kept : Terminator
one_kept =
    (publish_family (bytes "f") (record { number = 1; addr = bytes "127.0.0.1:5"; seen_at = 2 })
      both_up).0

abbrev first_endpoint : FamilyEndpoint
first_endpoint = record { number = 0; addr = bytes "127.0.0.1:4"; seen_at = 1 }

abbrev settled : Terminator
settled = (publish_family (bytes "f") first_endpoint one_kept).0

-- The first call gets the address of the other's endpoint, and its own is closed.
settled_run : (publish_family (bytes "f") first_endpoint one_kept).1 ≡ bytes "127.0.0.1:5"
unfolding publish_family bring_up_family new_terminator lookup insert same
settled_run = refl

settled_opened : settled.opened ≡ 1 ∷ []
unfolding publish_family bring_up_family new_terminator lookup insert same close_endpoint
settled_opened = refl

opened-Reachable_example :
    (times 1 settled.opened ≡ in_families 1 settled.families + times 1 [])
    × (times 1 settled.opened ≤ 1)
unfolding bring_up_family new_terminator
opened-Reachable_example = opened-Reachable 1 [] settled (
    published (bytes "f") first_endpoint [] [] one_kept (
      published (bytes "f") (record { number = 1; addr = bytes "127.0.0.1:5"; seen_at = 2 }) []
        (0 ∷ []) both_up
        (brought_up (bytes "127.0.0.1:5") 2 (0 ∷ []) first_up
          (brought_up (bytes "127.0.0.1:4") 1 [] new_terminator made))))
