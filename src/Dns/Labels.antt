-- ===== src/Dns/Labels.antt =====
-- The walk from a domain to its parents, which internal/dns/blocklist.go makes in three functions:
-- probe the name, then what stands behind its first dot, until there is no dot.
use safeswitch_router.Common.{
  ℕ, zero, suc, ◌+◌, ◌≤◌, ◌<◌, ◌≡◌, refl, ap, ◌∙◌, Option, none, some, List, [], ◌∷◌, arith, Bytes,
  length, drop, length-drop, ◌==◌, if◌then◌else◌, Option-cases, inl, inr,
}
use native.Mathlib.Numerals.{add-one}
use safeswitch_router.Common.Text.{index}

module _ {R : Type 0} where
  -- Fuel is the number of bytes left: each round drops one at least.
  unfoldable pub walk_from : ℕ → (Bytes → Option R) → Bytes → Option R
  walk_from zero probe d = probe d
  walk_from (suc fuel) probe d = elim (probe d) [
    | some r ↦ some r
    | none ↦ elim (index b'.' d) [
      | none ↦ none
      | some dot ↦ walk_from fuel probe (drop (dot + 1) d)
    ]
  ]

  unfoldable pub walk : (Bytes → Option R) → Bytes → Option R
  unfolding walk_from
  walk probe d = walk_from (length d) probe d

-- A name's parents: what stands behind each of its dots, nearest first.
abbrev pub parents : Bytes → List Bytes
parents [] = []
parents (c ∷ d) = if c == b'.' then d ∷ parents d else parents d

abbrev pub self_and_parents : Bytes → List Bytes
self_and_parents d = d ∷ parents d

module _ {R : Type 0} where
  abbrev pub first_some : (Bytes → Option R) → List Bytes → Option R
  first_some probe [] = none
  first_some probe (d ∷ ds) = elim (probe d) [ some r ↦ some r | none ↦ first_some probe ds ]

-- The first dot splits off the nearest parent.
pub parents-index-none : (d : Bytes) → index b'.' d ≡ none → parents d ≡ []
unfolding index
parents-index-none [] h = refl
parents-index-none (c ∷ d) h = ground (arith, parents-index-none d)

drop_add_one : (c : ℕ) (d : Bytes) (n : ℕ) → drop (n + 1) (c ∷ d) ≡ drop n d
drop_add_one c d n = let e : n + 1 ≡ suc n = omega arith in ap (λ k. drop k (c ∷ d)) e

pub parents-index-some :
    (d : Bytes) (dot : ℕ)
    → index b'.' d ≡ some dot
    → (parents d ≡ self_and_parents (drop (dot + 1) d)) × (dot < length d)
unfolding index
parents-index-some [] dot h = cc
parents-index-some (c ∷ d) zero h = ground (arith, drop_add_one c d 0)
parents-index-some (c ∷ d) (suc dot) h = ground (
  arith,
  parents-index-some d dot,
  drop_add_one c d (suc dot),
  ap (λ k. self_and_parents (drop k d)) (add-one dot),
)

module _ {R : Type 0} where
  walk_step :
      (fuel : ℕ) (probe : Bytes → Option R) (d : Bytes) (next : Option ℕ)
      → probe d ≡ none
      → index b'.' d ≡ next
      → walk_from (suc fuel) probe d
        ≡ (elim next [ none ↦ none | some dot ↦ walk_from fuel probe (drop (dot + 1) d) ])
  unfolding walk_from
  walk_step fuel probe d next miss e = rw (← e) (rw (miss, walk_from))

  walk_from-first_some :
      (fuel : ℕ) (probe : Bytes → Option R) (d : Bytes)
      → length d ≤ fuel
      → walk_from fuel probe d ≡ first_some probe (self_and_parents d)
  unfolding walk_from
  walk_from-first_some zero probe [] h = ground arith
  walk_from-first_some zero probe (c ∷ d) h = absurd (omega arith)
  walk_from-first_some (suc fuel) probe d h = elim (Option-cases (probe d)) [
    | inr (r, hit) ↦ rw (hit, walk_from)
    | inl miss ↦ elim (Option-cases (index b'.' d)) [
      | inl last ↦ walk_step fuel probe d none miss last ∙ rw (miss, parents-index-none d last)
      | inr (dot, e) ↦
          let (split, inside) = parents-index-some d dot e in
          walk_step fuel probe d (some dot) miss e
          ∙ walk_from-first_some fuel probe (drop (dot + 1) d)
              (omega (arith, length-drop (dot + 1) d))
          ∙ rw (miss, split)
    ]
  ]

  -- The walk finds the first hit among the name and its parents.
  pub walk-first_some :
      (probe : Bytes → Option R) (d : Bytes) → walk probe d ≡ first_some probe (self_and_parents d)
  unfolding walk
  walk-first_some probe d = walk_from-first_some (length d) probe d (omega arith)
