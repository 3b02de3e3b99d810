-- ===== src/Relay/Registry/Order.antt =====
-- The sort of internal/relay/registry.go.
use safeswitch_router.Common.{
  ℕ, ◌≡◌, refl, Bool, true, false, not, ◌&&◌, ◌||◌, Option, none, some, List, [], ◌∷◌, arith, any,
  ltb, ◌==◌, Bool-cases, inl, inr,
}
use safeswitch_router.Relay.Registry.{
  NodeHealth, Heap, less, put_sorted, sort_from, is_healthy, first_healthy,
}

-- What "comes before" means: a node of the higher preference, or of the same one that joined
-- earlier.
abbrev pub comes_before : NodeHealth → NodeHealth → Bool
comes_before h k = ltb k.pref h.pref || (h.pref == k.pref && ltb h.joined_at k.joined_at)

less-comes_before : (h k : NodeHealth) → less h k ≡ comes_before h k
unfolding less
less-comes_before h k = ground arith

less_irrefl : (h : NodeHealth) → less h h ≡ false
unfolding less
less_irrefl h = ground arith

less_asym : (h k : NodeHealth) → less h k ≡ true → less k h ≡ false
unfolding less
less_asym h k e = ground (arith, e)

less_trans : (h k l : NodeHealth) → less h k ≡ true → less k l ≡ true → less h l ≡ true
unfolding less
less_trans h k l e f = ground (arith, e, f)

any_mono {ℓ} :
    {A : Type ℓ} (p q : A → Bool) (xs : List A)
    → ((x : A) → p x ≡ true → q x ≡ true)
    → any q xs ≡ false
    → any p xs ≡ false
any_mono p q [] h e = refl
any_mono p q (x ∷ xs) h e = ground (arith, h x, e, any_mono p q xs h)

module _ (heap : Heap) where
  -- No node stands behind one that it comes before.
  abbrev pub ordered : List ℕ → Bool
  ordered [] = true
  ordered (a ∷ nodes) = not (any (λ b. less (heap b) (heap a)) nodes) && ordered nodes

  any-put_sorted :
      (p : ℕ → Bool) (a : ℕ) (nodes : List ℕ)
      → any p (put_sorted heap a nodes) ≡ (p a || any p nodes)
  unfolding put_sorted
  any-put_sorted p a [] = refl
  any-put_sorted p a (b ∷ nodes) = ground (arith, any-put_sorted p a nodes)

  pub any-sort_from :
      (p : ℕ → Bool) (sorted nodes : List ℕ)
      → any p (sort_from heap sorted nodes) ≡ (any p sorted || any p nodes)
  unfolding sort_from
  any-sort_from p sorted [] = ground arith
  any-sort_from p sorted (a ∷ nodes) =
      ground (arith, any-sort_from p (put_sorted heap a sorted) nodes, any-put_sorted p a sorted)

  ordered-put_sorted :
      (a : ℕ) (nodes : List ℕ) → ordered nodes ≡ true → ordered (put_sorted heap a nodes) ≡ true
  unfolding put_sorted
  ordered-put_sorted a [] h = refl
  ordered-put_sorted a (b ∷ nodes) h = ground (
    arith,
    h,
    less_asym (heap a) (heap b),
    ordered-put_sorted a nodes,
    any-put_sorted (λ c. less (heap c) (heap b)) a nodes,
    λ (e : less (heap a) (heap b) ≡ true).
        any_mono (λ c. less (heap c) (heap a)) (λ c. less (heap c) (heap b)) nodes
          (λ c f. less_trans (heap c) (heap a) (heap b) f e),
  )

  ordered-sort_from :
      (sorted nodes : List ℕ) → ordered sorted ≡ true → ordered (sort_from heap sorted nodes) ≡ true
  unfolding sort_from
  ordered-sort_from sorted [] h = h
  ordered-sort_from sorted (a ∷ nodes) h =
      ordered-sort_from (put_sorted heap a sorted) nodes (ordered-put_sorted a sorted h)

  -- The best healthy node of a list: it is one of them, and no healthy one comes before it.
  abbrev pub IsBest : ℕ → List ℕ → Option ℕ → Type 0
  IsBest now nodes none = any (λ b. is_healthy now (heap b)) nodes ≡ false
  IsBest now nodes (some a) =
      (any (λ b. b == a) nodes ≡ true)
      × (is_healthy now (heap a) ≡ true)
      × (any (λ b. is_healthy now (heap b) && comes_before (heap b) (heap a)) nodes ≡ false)

  IsBest-cons :
      (now a : ℕ) (nodes : List ℕ) (o : Option ℕ)
      → is_healthy now (heap a) ≡ false
      → IsBest now nodes o
      → IsBest now (a ∷ nodes) o
  IsBest-cons now a nodes none e h = ground (arith, e, h)
  IsBest-cons now a nodes (some b) e h = (ground (arith, h.0), h.1, ground (arith, e, h.2))

  first_healthy_head :
      (now a : ℕ) (nodes : List ℕ)
      → is_healthy now (heap a) ≡ true
      → first_healthy heap now (a ∷ nodes) ≡ some a
  unfolding first_healthy
  first_healthy_head now a nodes e = ground (arith, e)

  first_healthy_tail :
      (now a : ℕ) (nodes : List ℕ)
      → is_healthy now (heap a) ≡ false
      → first_healthy heap now (a ∷ nodes) ≡ first_healthy heap now nodes
  unfolding first_healthy
  first_healthy_tail now a nodes e = ground (arith, e)

  pub first_healthy-IsBest :
      (now : ℕ) (nodes : List ℕ)
      → ordered nodes ≡ true
      → IsBest now nodes (first_healthy heap now nodes)
  first_healthy-IsBest now [] h = unfold first_healthy in refl
  first_healthy-IsBest now (a ∷ nodes) h = elim (Bool-cases (is_healthy now (heap a))) [
    | inl e ↦ rw (first_healthy_head now a nodes e) (
      ground arith,
      e,
      ground (
        arith,
        h,
        less_irrefl (heap a),
        any_mono (λ b. is_healthy now (heap b) && comes_before (heap b) (heap a))
            (λ b. less (heap b) (heap a)) nodes
            (λ b f. ground (arith, f, less-comes_before (heap b) (heap a))),
        less-comes_before (heap a) (heap a),
      ),
    )
    | inr e ↦ rw (first_healthy_tail now a nodes e) (
        IsBest-cons now a nodes (first_healthy heap now nodes) e
          (first_healthy-IsBest now nodes (ground (arith, h))))
  ]

  IsBest-sort_from :
      (now : ℕ) (nodes : List ℕ) (o : Option ℕ)
      → IsBest now (sort_from heap [] nodes) o
      → IsBest now nodes o
  IsBest-sort_from now nodes none h =
      ground (arith, h, any-sort_from (λ b. is_healthy now (heap b)) [] nodes)
  IsBest-sort_from now nodes (some a) h = (
    ground (arith, h.0, any-sort_from (λ b. b == a) [] nodes),
    h.1,
    ground (
      arith,
      h.2,
      any-sort_from (λ b. is_healthy now (heap b) && comes_before (heap b) (heap a)) [] nodes,
    ),
  )

  -- The first healthy node of the sorted list is the best of the unsorted one.
  pub first_healthy-sort_from :
      (now : ℕ) (nodes : List ℕ)
      → IsBest now nodes (first_healthy heap now (sort_from heap [] nodes))
  first_healthy-sort_from now nodes =
      IsBest-sort_from now nodes (first_healthy heap now (sort_from heap [] nodes))
        (first_healthy-IsBest now (sort_from heap [] nodes) (ordered-sort_from [] nodes refl))
