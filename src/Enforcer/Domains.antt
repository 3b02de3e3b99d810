-- ===== src/Enforcer/Domains.antt =====
-- The emergency domains of internal/enforcer/failsafe_enforcer.go.
use safeswitch_router.Common.{
  ℕ, suc, ◌+◌, ◌-◌, ◌<◌, ◌≤◌, ◌≡◌, ap, ◌∙◌, true, List, [], ◌∷◌, ◌++◌, arith, Bytes, bytes, length,
  take, drop, get_or_append, same_refl, same_iff, length-append,
}
use safeswitch_router.Common.Text.{has_suffix}
use safeswitch_router.Enforcer.{trim_dot, allowed_by, is_allowed_in_failsafe}

module _ {ℓ} {A : Type ℓ} where
  drop_append_more : (s t : List A) (n : ℕ) → drop (length s + n) (s ++ t) ≡ drop n t
  drop_append_more [] t n = ap (λ k. drop k t) (omega arith)
  drop_append_more (c ∷ s) t n =
      let e : suc (length s) + n ≡ suc (length s + n) = omega arith in
      ap (λ k. drop k (c ∷ (s ++ t))) e ∙ drop_append_more s t n

  take_append_more : (s t : List A) (n : ℕ) → take (length s + n) (s ++ t) ≡ s ++ take n t
  take_append_more [] t n = ap (λ k. take k t) (omega arith)
  take_append_more (c ∷ s) t n =
      let e : suc (length s) + n ≡ suc (length s + n) = omega arith in
      ap (λ k. take k (c ∷ (s ++ t))) e ∙ ap (◌∷◌ c) (take_append_more s t n)

has_suffix-append_left : (s t u : Bytes) → has_suffix t u ≡ true → has_suffix (s ++ t) u ≡ true
unfolding has_suffix
has_suffix-append_left s t u h =
    let e : length u ≤ length t → length (s ++ t) - length u ≡ length s + (length t - length u) =
      λ k. omega (arith, length-append s t) in
    ground (arith, h, e, length-append s t, drop_append_more s t (length t - length u))

has_suffix_self : (s : Bytes) → has_suffix s s ≡ true
unfolding has_suffix
has_suffix_self s = let e : length s - length s ≡ 0 = omega arith in ground (arith, e, same_refl s)

trim_dot-append : (s t : Bytes) → 0 < length t → trim_dot (s ++ t) ≡ s ++ trim_dot t
unfolding trim_dot
trim_dot-append s t h =
    let e : length (s ++ t) - 1 ≡ length s + (length t - 1) = omega (arith, length-append s t, h) in
    ground (
      arith,
      h,
      e,
      length-append s t,
      get_or_append s t (length t - 1) 0,
      take_append_more s t (length t - 1),
    )

allowed_by-append :
    (s d : Bytes) (ds : List Bytes)
    → allowed_by d ds ≡ true
    → allowed_by (s ++ (bytes "." ++ d)) ds ≡ true
unfolding allowed_by
allowed_by-append s d [] h = h
allowed_by-append s d (a ∷ ds) h = ground (
  arith,
  h,
  same_iff d a,
  has_suffix-append_left s (bytes "." ++ d) (bytes "." ++ d) (has_suffix_self (bytes "." ++ d)),
  has_suffix-append_left s (bytes "." ++ d) (bytes "." ++ a),
  has_suffix-append_left (bytes ".") d (bytes "." ++ a),
  allowed_by-append s d ds,
)

-- Every name under a domain that the fail-safe allows is allowed too, with a trailing dot or
-- without; the domain is not the empty text.
pub is_allowed_in_failsafe-append :
    (s d : Bytes) (ds : List Bytes)
    → 0 < length d
    → is_allowed_in_failsafe d ds ≡ true
    → is_allowed_in_failsafe (s ++ (bytes "." ++ d)) ds ≡ true
unfolding is_allowed_in_failsafe
is_allowed_in_failsafe-append s d ds h k =
    let e : trim_dot (s ++ (bytes "." ++ d)) ≡ s ++ (bytes "." ++ trim_dot d) =
      trim_dot-append s (bytes "." ++ d) (omega arith)
      ∙ ap (λ x. s ++ x) (trim_dot-append (bytes ".") d h) in
    ap (λ x. allowed_by x ds) e ∙ allowed_by-append s (trim_dot d) ds k
