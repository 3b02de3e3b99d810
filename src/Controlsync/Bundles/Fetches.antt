-- ===== src/Controlsync/Bundles/Fetches.antt =====
-- Which bundles internal/controlsync/bundlesync.go lets in.
use safeswitch_router.Common.{
  ℕ, zero, suc, ◌+◌, ◌≤◌, ◌<◌, ◌≡◌, ◌⊎◌, refl, Bool, true, false, not, ◌&&◌, Option, none, some,
  arith, Bytes, bytes, length, ltb, leb, same, ◌==◌, Bool-cases, Option-cases, inl, inr,
}
use safeswitch_router.Policy.{Bundle, Runtime, done, failed, active_bundle, swap_bundle}
use safeswitch_router.Controlsync.Client.{Reply}
use safeswitch_router.Controlsync.Bundles.{
  bundle_retry_count, is_good, get_with_retries, is_current, Fetched, take_bundle, take_reply,
  fetch_bundle, bootstrap_bundle, seed_bootstrap_bundle,
}

-- The first good reply of the requests from `i` on.
abbrev pub IsFirstGood : (ℕ → Option Reply) → ℕ → ℕ → Reply → Type 0
IsFirstGood get first end reply =
    (i : ℕ) × (first ≤ i)
    × (i < end)
    × (get i ≡ some reply)
    × (is_good (get i) ≡ true)
    × ((j : ℕ) → first ≤ j → j < i → is_good (get j) ≡ false)

get_with_retries-IsFirstGood :
    (get : ℕ → Option Reply) (n first end : ℕ) (last : Option Reply) (reply : Reply)
    → first + n ≡ end
    → is_good last ≡ false
    → get_with_retries get n first last ≡ some reply
    → leb 400 reply.status ≡ false
    → IsFirstGood get first end reply
unfolding get_with_retries
get_with_retries-IsFirstGood get zero first end last reply e l h g =
    absurd (ground (arith, l, h, g))
get_with_retries-IsFirstGood get (suc n) first end last reply e l h g =
    elim (Bool-cases (is_good (get first))) [
      | inl b ↦ (
        first,
        omega arith,
        omega (arith, e),
        ground (arith, b, h),
        b,
        λ j p q. absurd (omega (arith, p, q)),
      )
      | inr b ↦
          let (i, p, q, at, good, before) =
            get_with_retries-IsFirstGood get n (suc first) end (get first) reply (omega (arith, e))
              b (ground (arith, b, h)) g in
          (
            i,
            omega (arith, p),
            q,
            at,
            good,
            λ j x y. elim (Bool-cases (j == first)) [
              | inl m ↦ ground (arith, m, b)
              | inr m ↦ before j (ground (arith, m, x)) y
            ],
          )
    ]

module _ (marshal : Bundle → Option Bytes) (node_type : Bytes) (has_tunnel : Bool) where
  -- A bundle with a version that has not expired and is not the one at hand.
  abbrev pub IsLetIn : ℕ → Runtime → Bundle → Type 0
  IsLetIn now r b =
      (0 < length b.version)
      × ((b.expires_at ≡ 0) ⊎ (now ≤ b.expires_at))
      × (is_current (active_bundle r) b ≡ false)

  abbrev pub Takes : Runtime → Bundle → Fetched → Type 0
  Takes r b o =
      (active_bundle o.runtime ≡ some b)
      × (o.swapped ≡ true)
      × (o.synced ≡ (not (same node_type (bytes "vps_relay")) && has_tunnel))

  abbrev pub IsUnchanged : Runtime → Fetched → Type 0
  IsUnchanged r o = (o.runtime ≡ r) × (o.swapped ≡ false) × (o.synced ≡ false)

  swap_bundle-cases :
      (writes : Bool) (b : Bundle) (r : Runtime)
      → (((swap_bundle marshal writes (some b) r).1 ≡ failed)
          × ((swap_bundle marshal writes (some b) r).0 ≡ r))
        ⊎ (((swap_bundle marshal writes (some b) r).1 ≡ done)
            × (active_bundle (swap_bundle marshal writes (some b) r).0 ≡ some b))
  unfolding swap_bundle active_bundle
  swap_bundle-cases writes b r = elim (Option-cases (marshal b)) [
    | inl n ↦ inl (ground (arith, n), ground (arith, n))
    | inr (raw, n) ↦ elim (Bool-cases writes) [
      | inl w ↦ inr (ground (arith, n, w), ground (arith, n, w))
      | inr w ↦ inl (ground (arith, n, w), ground (arith, n, w))
    ]
  ]

  take_bundle-cases :
      (writes : Bool) (now : ℕ) (b : Bundle) (r : Runtime)
      → IsUnchanged r (take_bundle marshal node_type has_tunnel writes now b r)
        ⊎ (IsLetIn now r b × Takes r b (take_bundle marshal node_type has_tunnel writes now b r))
  unfolding take_bundle
  take_bundle-cases writes now b r = elim (Bool-cases (length b.version == 0)) [
    | inl v ↦ inl (ground (arith, v), ground (arith, v), ground (arith, v))
    | inr v ↦ elim (Bool-cases (not (b.expires_at == 0) && ltb b.expires_at now)) [
      | inl x ↦ inl (ground (arith, v, x), ground (arith, v, x), ground (arith, v, x))
      | inr x ↦ elim (Bool-cases (is_current (active_bundle r) b)) [
        | inl c ↦ inl (ground (arith, v, x, c), ground (arith, v, x, c), ground (arith, v, x, c))
        | inr c ↦ elim (swap_bundle-cases writes b r) [
          | inl (f, e) ↦ inl (
            ground (arith, v, x, c, f, e),
            ground (arith, v, x, c, f),
            ground (arith, v, x, c, f),
          )
          | inr (f, e) ↦ inr (
            (ground (arith, v), ground (arith, x), c),
            (ground (arith, v, x, c, f, e), ground (arith, v, x, c, f), ground (arith, v, x, c, f)),
          )
        ]
      ]
    ]
  ]

  take_reply-cases :
      (decode : Bytes → Option Bundle) (writes : Bool) (now : ℕ) (o : Option Reply) (r : Runtime)
      → IsUnchanged r (take_reply marshal node_type has_tunnel decode writes now o r)
        ⊎ ((reply : Reply) × (b : Bundle) × (o ≡ some reply)
            × (leb 400 reply.status ≡ false)
            × (decode reply.body ≡ some b)
            × IsLetIn now r b
            × Takes r b (take_reply marshal node_type has_tunnel decode writes now o r))
  unfolding take_reply
  take_reply-cases decode writes now none r = inl (refl, refl, refl)
  take_reply-cases decode writes now (some reply) r = elim (Bool-cases (leb 400 reply.status)) [
    | inl g ↦ inl (ground (arith, g), ground (arith, g), ground (arith, g))
    | inr g ↦ elim (Option-cases (decode reply.body)) [
      | inl d ↦ inl (ground (arith, g, d), ground (arith, g, d), ground (arith, g, d))
      | inr (b, d) ↦ elim (take_bundle-cases writes now b r) [
        | inl u ↦ inl (rw (g, d) u)
        | inr (let_in, taken) ↦ inr (reply, b, refl, g, d, let_in, rw (g, d) taken)
      ]
    ]
  ]

  -- A fetch changes nothing, or it ends with a reply without an error status, the first of at most
  -- three, and its bundle is the active one: one with a version, not expired, and other than the one
  -- before by its version, its number of children or its end. The tunnel is told to sync then, but on
  -- a relay.
  pub fetch_bundle-cases :
      (decode : Bytes → Option Bundle) (get : ℕ → Option Reply) (writes : Bool) (now : ℕ)
      (r : Runtime)
      → IsUnchanged r (fetch_bundle marshal node_type has_tunnel decode get writes now r)
        ⊎ ((reply : Reply) × (b : Bundle) × IsFirstGood get 0 3 reply
            × (decode reply.body ≡ some b)
            × IsLetIn now r b
            × Takes r b (fetch_bundle marshal node_type has_tunnel decode get writes now r))
  fetch_bundle-cases decode get writes now r =
      let last = get_with_retries get bundle_retry_count 0 none in
      unfold fetch_bundle in
      elim (take_reply-cases decode writes now last r) [
        | inl u ↦ inl u
        | inr (reply, b, n, g, d, let_in, taken) ↦ inr (
          reply,
          b,
          get_with_retries-IsFirstGood get 3 0 3 none reply refl refl n g,
          d,
          let_in,
          taken,
        )
      ]

-- A start without a bundle of its own has one for a day, and a bundle at hand is left alone.
pub seed_bootstrap_bundle-active :
    (marshal : Bundle → Option Bytes) (raw : Bytes) (now : ℕ) (r : Runtime)
    → marshal (bootstrap_bundle now) ≡ some raw
    → active_bundle (seed_bootstrap_bundle marshal true now r)
      ≡ (elim (active_bundle r) [ none ↦ some (bootstrap_bundle now) | some b ↦ some b ])
unfolding seed_bootstrap_bundle swap_bundle active_bundle
seed_bootstrap_bundle-active marshal raw now r h = ground (arith, h)
