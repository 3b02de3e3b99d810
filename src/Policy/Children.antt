-- ===== src/Policy/Children.antt =====
-- The lookups of internal/policy/runtime.go over the children of the active bundle.
use safeswitch_router.Common.{
  ◌-◌, ◌≡◌, refl, ap, sym, ◌∙◌, Bool, true, false, ◌||◌, ◌&&◌, Option, none, some, List, [], ◌∷◌,
  ◌++◌, arith, Bytes, bytes, length, length-append, take_append, drop_append, any, ltb, same,
  same_refl, if◌then◌else◌,
}
use safeswitch_router.Common.Dict.{insert, has, lookup, has-insert}
use safeswitch_router.Common.Text.{trim_suffix, has_suffix}
use safeswitch_router.Policy.{
  ChildEffectiveState, Runtime, children_of, clean_ip, categories_for, blocked_categories_for_ip,
  paused_for, internet_paused_for_ip, macs_of, enrolled_macs,
}

has_suffix-append : (s t : Bytes) → has_suffix (s ++ t) t ≡ true
unfolding has_suffix
has_suffix-append s t =
    let e : length (s ++ t) - length t ≡ length s = omega (arith, length-append s t) in
    ground (arith, e, length-append s t, drop_append s t, same_refl t)

-- A suffix that is there is cut off.
trim_suffix-append : (s t : Bytes) → trim_suffix (s ++ t) t ≡ s
unfolding trim_suffix
trim_suffix-append s t =
    let e : length (s ++ t) - length t ≡ length s = omega (arith, length-append s t) in
    ground (arith, e, has_suffix-append s t, take_append s t)

pub clean_ip-append : (ip : Bytes) → clean_ip (ip ++ bytes "/32") ≡ ip
unfolding clean_ip
clean_ip-append ip = trim_suffix-append ip (bytes "/32")

-- The first child with a tunnel address, both without "/32".
unfoldable pub child_at : Bytes → List ChildEffectiveState → Option ChildEffectiveState
child_at clean [] = none
child_at clean (c ∷ cs) = if same (clean_ip c.wireguard_ip) clean then some c else child_at clean cs

paused_for-child_at :
    (clean : Bytes) (cs : List ChildEffectiveState)
    → paused_for clean cs ≡ (elim (child_at clean cs) [
      | none ↦ false
      | some c ↦ c.lock_enabled || same c.mode (bytes "paused")
    ])
unfolding paused_for child_at
paused_for-child_at clean [] = refl
paused_for-child_at clean (c ∷ cs) = ground (arith, paused_for-child_at clean cs)

categories_for-child_at :
    (clean : Bytes) (cs : List ChildEffectiveState)
    → categories_for clean cs
      ≡ (elim (child_at clean cs) [ none ↦ [] | some c ↦ c.blocked_categories ])
unfolding categories_for child_at
categories_for-child_at clean [] = refl
categories_for-child_at clean (c ∷ cs) = ground (arith, categories_for-child_at clean cs)

-- Both questions about a device are answered from the same child, the first of the active bundle
-- with the device's tunnel address: paused if it is locked or in the mode "paused", with the child's
-- categories; without such a child the device is not paused and has no categories.
pub internet_paused_for_ip-child_at :
    (r : Runtime) (ip : Bytes)
    → (internet_paused_for_ip r ip ≡ (elim (child_at (clean_ip ip) (children_of r.active)) [
      | none ↦ false
      | some c ↦ c.lock_enabled || same c.mode (bytes "paused")
    ]))
      × (blocked_categories_for_ip r ip ≡ (elim (child_at (clean_ip ip) (children_of r.active)) [
        | none ↦ []
        | some c ↦ c.blocked_categories
      ]))
unfolding internet_paused_for_ip blocked_categories_for_ip
internet_paused_for_ip-child_at r ip = (
  paused_for-child_at (clean_ip ip) (children_of r.active),
  categories_for-child_at (clean_ip ip) (children_of r.active),
)

-- Of a device whose address has no "/32", asking with "/32" behind it gives the same answers.
pub internet_paused_for_ip-cidr :
    (r : Runtime) (ip : Bytes)
    → has_suffix ip (bytes "/32") ≡ false
    → (internet_paused_for_ip r (ip ++ bytes "/32") ≡ internet_paused_for_ip r ip)
      × (blocked_categories_for_ip r (ip ++ bytes "/32") ≡ blocked_categories_for_ip r ip)
unfolding internet_paused_for_ip blocked_categories_for_ip
internet_paused_for_ip-cidr r ip h =
    let plain : clean_ip ip ≡ ip = unfold clean_ip trim_suffix in ground (arith, h) in
    let e : clean_ip (ip ++ bytes "/32") ≡ clean_ip ip = clean_ip-append ip ∙ sym plain in
    (
      ap (λ a. paused_for a (children_of r.active)) e,
      ap (λ a. categories_for a (children_of r.active)) e,
    )

has-macs_of :
    (mac : Bytes) (cs : List ChildEffectiveState) (result : List (Bytes × Bool))
    → has mac (macs_of cs result)
      ≡ (has mac result || any (λ c. ltb 0 (length c.device_mac) && same c.device_mac mac) cs)
unfolding macs_of
has-macs_of mac [] result = ground arith
has-macs_of mac (c ∷ cs) result = ground (
  arith,
  has-macs_of mac cs result,
  has-macs_of mac cs (insert c.device_mac true result),
  has-insert c.device_mac mac true result,
)

-- The enrolled addresses are those of the children of the active bundle, the empty one left out.
pub has-enrolled_macs :
    (r : Runtime) (mac : Bytes)
    → has mac (enrolled_macs r)
      ≡ any (λ c. ltb 0 (length c.device_mac) && same c.device_mac mac) (children_of r.active)
unfolding enrolled_macs lookup
has-enrolled_macs r mac = has-macs_of mac (children_of r.active) []
