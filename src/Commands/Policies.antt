-- ===== src/Commands/Policies.antt =====
-- The command `update_policy` of internal/commands/handlers.go over internal/policy/runtime.go, against
-- the writing of a bundle as a payload.
use safeswitch_router.Common.{
  ℕ, ◌<◌, ◌≡◌, refl, Bool, true, Option, none, some, List, [], ◌∷◌, map, arith, All, Bytes, bytes,
  length, same,
}
use safeswitch_router.Common.Json.{
  flag, text, array, object, Items, no_items, item, Fields, no_fields, field, field_of,
}
use safeswitch_router.Policy.{
  Bundle, ChildEffectiveState, Runtime, done, failed, swap_bundle, active_bundle,
}
use safeswitch_router.Commands.Payloads.{
  Fallible, fine, texts_of, require_string, string_val, bool_val, string_slice_val, parse_time,
}
use safeswitch_router.Commands.Interfaces.{PolicySwapper, attempt}
use safeswitch_router.Commands.Handlers.{
  child_of, children_from, require_time, update_policy_handler,
}

-- The runtime as the handlers' service.
abbrev pub runtime_swapper : (Bundle → Option Bytes) → Bool → Bytes → PolicySwapper Runtime
runtime_swapper marshal writes refusal = record {
  swap_bundle = λ b r.
      let ran = swap_bundle marshal writes (some b) r in
      (ran.0, elim ran.1 [ done ↦ none | failed ↦ some refusal ]);
}

abbrev pub text_items : List Bytes → Items
text_items [] = no_items
text_items (s ∷ ss) = item (text s) (text_items ss)

abbrev pub child_fields : ChildEffectiveState → Fields
child_fields c = field (bytes "child_id") (text c.child_id) (
    field (bytes "device_mac") (text c.device_mac) (
      field (bytes "wireguard_public_key") (text c.wireguard_public_key) (
        field (bytes "wireguard_ip") (text c.wireguard_ip) (
          field (bytes "mode") (text c.mode) (
            field (bytes "lock_enabled") (flag c.lock_enabled) (
              field (bytes "dns_profile_id") (text c.dns_profile_id) (
                field (bytes "blocked_categories") (array (text_items c.blocked_categories))
                  no_fields)))))))

abbrev pub child_items : List ChildEffectiveState → Items
child_items [] = no_items
child_items (c ∷ cs) = item (object (child_fields c)) (child_items cs)

-- A bundle whose times are written as these texts.
abbrev pub bundle_fields : Bytes → Bytes → Bundle → Fields
bundle_fields issued expires b = field (bytes "version") (text b.version) (
    field (bytes "issued_at") (text issued) (
      field (bytes "expires_at") (text expires) (
        field (bytes "signature") (text b.signature)
          (field (bytes "children") (array (child_items b.children)) no_fields))))

abbrev pub AreTexts : List Bytes → Type 0
AreTexts ss = All (λ s. 0 < length s) ss

-- What the command carries of a child, and of a bundle.
abbrev pub carried_child : ChildEffectiveState → ChildEffectiveState
carried_child c = record c { allowed_services = [] }

abbrev pub carried : Bundle → Bundle
carried b = record b { emergency_domains = []; children = map carried_child b.children }

texts_of-text_items : (ss : List Bytes) → AreTexts ss → texts_of (text_items ss) ≡ ss
unfolding texts_of
texts_of-text_items [] h = refl
texts_of-text_items (s ∷ ss) h = ground (arith, h.0, texts_of-text_items ss h.1)

child_of-child_fields :
    (c : ChildEffectiveState)
    → AreTexts c.blocked_categories
    → child_of (child_fields c) ≡ carried_child c
unfolding child_of string_val bool_val string_slice_val field_of same
child_of-child_fields c h = rw (texts_of-text_items c.blocked_categories h) refl

children_from-child_items :
    (cs : List ChildEffectiveState)
    → All (λ c. AreTexts c.blocked_categories) cs
    → children_from (child_items cs) ≡ map carried_child cs
unfolding children_from
children_from-child_items [] h = refl
children_from-child_items (c ∷ cs) h =
    ground (arith, child_of-child_fields c h.0, children_from-child_items cs h.1)

require_time-parsed :
    (quote : Bytes → Bytes) (parse : Bytes → Bytes → Fallible ℕ) (payload : Fields) (key s : Bytes)
    (t : ℕ)
    → require_string quote payload key ≡ fine s
    → parse_time parse s ≡ fine t
    → require_time quote parse payload key ≡ fine t
unfolding require_time
require_time-parsed quote parse payload key s t h k = rw (h, k, require_time) refl

-- A bundle that the command carries to the runtime is active behind it but for the emergency domains
-- and the children's allowed services, which are lost. The version and the times' texts are not
-- empty, the texts read back as the times, no category is empty, and the bundle marshals for a
-- database that takes it.
pub active_bundle-update_policy_handler :
    (quote : Bytes → Bytes) (parse : Bytes → Bytes → Fallible ℕ) (marshal : Bundle → Option Bytes)
    (raw refusal issued expires : Bytes) (b : Bundle) (r : Runtime)
    → 0 < length b.version
    → 0 < length issued
    → 0 < length expires
    → parse_time parse issued ≡ fine b.issued_at
    → parse_time parse expires ≡ fine b.expires_at
    → All (λ c. AreTexts c.blocked_categories) b.children
    → marshal (carried b) ≡ some raw
    → active_bundle
        (update_policy_handler quote parse
          (runtime_swapper marshal true refusal)
          (bundle_fields issued expires b)
          r).0
      ≡ some (carried b)
unfolding update_policy_handler require_string string_val field_of same attempt swap_bundle
    active_bundle
active_bundle-update_policy_handler quote parse marshal raw refusal issued expires b r hv hi he pi
      pe hc m =
    let payload = bundle_fields issued expires b in
    let version : require_string quote payload (bytes "version") ≡ fine b.version =
      ground (arith, hv) in
    let issued_at =
      require_time-parsed quote parse payload (bytes "issued_at") issued b.issued_at
        (ground (arith, hi)) pi in
    let expires_at =
      require_time-parsed quote parse payload (bytes "expires_at") expires b.expires_at
        (ground (arith, he)) pe in
    rw (version, issued_at, expires_at, children_from-child_items b.children hc) (ground (arith, m))
