-- ===== src/Dns/Bloom/Members.antt =====
-- The filter of internal/dns/blocklist.go never denies what was added to it.
use safeswitch_router.Common.{
  ℕ, zero, suc, ◌+◌, ◌*◌, ◌/◌, ◌%◌, ◌^◌, ◌<◌, ◌≤◌, ◌≡◌, refl, sym, ap, ◌∙◌, true, false, arith,
  bit_and, bit_or, Bytes, get_or, set, length, length-set, length-replicate, get_or-set_self,
  get_or-set_ne, ◌==◌,
}
use native.Mathlib.Decide.{ℕ_discrete}
use safeswitch_router.Common.Masks.{set_bit_seen, seen_bit_stays}
use safeswitch_router.Dns.Bloom.{
  BloomFilter, new_bloom, bit_index, set_bit, add_from, add, bit_clear, contains_from,
  maybe_contains,
}

-- Every index below `m` lies in a word of the table.
pub record IsSized (bf : BloomFilter) : Type 0 where
  pub positive : 0 < bf.m
  pub room : bf.m ≤ 64 * length bf.bits

pub new_bloom-IsSized : (bits k : ℕ) → 0 < bits → IsSized (new_bloom bits k)
unfolding new_bloom
new_bloom-IsSized bits k h = record {
  positive = h;
  room = omega (arith, length-replicate {A = ℕ} ((bits + 63) / 64) 0);
}

set_bit-IsSized : (bf : BloomFilter) (i : ℕ) → IsSized bf → IsSized (set_bit bf i)
unfolding set_bit
set_bit-IsSized bf i v = record {
  positive = v.positive;
  room = omega (
    arith,
    v.room,
    length-set bf.bits (i / 64) (bit_or (get_or bf.bits (i / 64) 0) (2 ^ (i % 64))),
  );
}

-- A write leaves the two numbers of the filter alone, so the indices stay the same.
bit_index-set_bit :
    (bf : BloomFilter) (i n : ℕ) (s : Bytes) → bit_index (set_bit bf i) s n ≡ bit_index bf s n
unfolding set_bit bit_index
bit_index-set_bit bf i n s = refl

-- A word is seen to hold a bit exactly if the mask leaves something.
seen→test : (x : ℕ) → 0 < x → (x == 0) ≡ false
seen→test x h = ground arith

test→seen : (x : ℕ) → (x == 0) ≡ false → 0 < x
test→seen x h = ground arith

bit_clear-set_bit_self :
    (bf : BloomFilter) (i : ℕ) → IsSized bf → i < bf.m → bit_clear (set_bit bf i) i ≡ false
unfolding bit_clear set_bit
bit_clear-set_bit_self bf i v h =
    let old = get_or bf.bits (i / 64) 0 in
    let word : get_or (set bf.bits (i / 64) (bit_or old (2 ^ (i % 64)))) (i / 64) 0
        ≡ bit_or old (2 ^ (i % 64)) =
      get_or-set_self bf.bits (i / 64) (bit_or old (2 ^ (i % 64))) 0 (omega (arith, v.room)) in
    rw word
      (seen→test (bit_and (bit_or old (2 ^ (i % 64))) (2 ^ (i % 64))) (set_bit_seen (i % 64) old))

-- Setting a bit clears none.
bit_clear-set_bit :
    (bf : BloomFilter) (i j : ℕ)
    → IsSized bf
    → i < bf.m
    → bit_clear bf j ≡ false
    → bit_clear (set_bit bf i) j ≡ false
unfolding bit_clear set_bit
bit_clear-set_bit bf i j v h e =
    let old = get_or bf.bits (i / 64) 0 in
    let new = bit_or old (2 ^ (i % 64)) in
    elim (ℕ_discrete (i / 64) (j / 64)) [
      | yes same ↦
          let word : get_or (set bf.bits (i / 64) new) (j / 64) 0 ≡ new =
            ap (λ k. get_or (set bf.bits (i / 64) new) k 0) (sym same)
            ∙ get_or-set_self bf.bits (i / 64) new 0 (omega (arith, v.room)) in
          let before : 0 < bit_and old (2 ^ (j % 64)) =
            test→seen _ (ap (λ k. bit_and (get_or bf.bits k 0) (2 ^ (j % 64)) == 0) same ∙ e) in
          rw word (seen→test _ (seen_bit_stays (j % 64) old (2 ^ (i % 64)) before))
      | no other ↦ rw (get_or-set_ne bf.bits (i / 64) (j / 64) new 0 other) e
    ]

bit_index-lt : (bf : BloomFilter) (s : Bytes) (i : ℕ) → 0 < bf.m → bit_index bf s i < bf.m
unfolding bit_index
bit_index-lt bf s i h = omega arith

-- `t` has its bits from round `i` on in the filter after any bit has been set.
contains_from-set_bit :
    (left i n : ℕ) (t : Bytes) (bf : BloomFilter)
    → IsSized bf
    → n < bf.m
    → contains_from left i t bf ≡ true
    → contains_from left i t (set_bit bf n) ≡ true
unfolding contains_from
contains_from-set_bit zero i n t bf v h e = refl
contains_from-set_bit (suc left) i n t bf v h e = ground (
  arith,
  bit_index-set_bit bf n i t,
  bit_clear-set_bit bf n (bit_index bf t i) v h,
  contains_from-set_bit left (i + 1) n t bf v h,
)

contains_from-add_from :
    (left i left' i' : ℕ) (s t : Bytes) (bf : BloomFilter)
    → IsSized bf
    → contains_from left' i' t bf ≡ true
    → contains_from left' i' t (add_from left i s bf) ≡ true
unfolding add_from
contains_from-add_from zero i left' i' s t bf v e = e
contains_from-add_from (suc left) i left' i' s t bf v e =
    let n = bit_index bf s i in
    contains_from-add_from left (i + 1) left' i' s t (set_bit bf n) (set_bit-IsSized bf n v)
      (contains_from-set_bit left' i' n t bf v (bit_index-lt bf s i v.positive) e)

bit_clear-add_from :
    (left i j : ℕ) (s : Bytes) (bf : BloomFilter)
    → IsSized bf
    → bit_clear bf j ≡ false
    → bit_clear (add_from left i s bf) j ≡ false
unfolding add_from
bit_clear-add_from zero i j s bf v e = e
bit_clear-add_from (suc left) i j s bf v e =
    let n = bit_index bf s i in
    bit_clear-add_from left (i + 1) j s (set_bit bf n) (set_bit-IsSized bf n v)
      (bit_clear-set_bit bf n j v (bit_index-lt bf s i v.positive) e)

bit_index-add_from :
    (left i n : ℕ) (s t : Bytes) (bf : BloomFilter)
    → bit_index (add_from left i s bf) t n ≡ bit_index bf t n
unfolding add_from
bit_index-add_from zero i n s t bf = refl
bit_index-add_from (suc left) i n s t bf =
    bit_index-add_from left (i + 1) n s t (set_bit bf (bit_index bf s i))
    ∙ bit_index-set_bit bf (bit_index bf s i) n t

contains_round :
    (left i : ℕ) (s : Bytes) (bf : BloomFilter)
    → bit_clear bf (bit_index bf s i) ≡ false
    → contains_from left (i + 1) s bf ≡ true
    → contains_from (suc left) i s bf ≡ true
unfolding contains_from
contains_round left i s bf seen rest = rw seen rest

contains_from-add_from_self :
    (left i : ℕ) (s : Bytes) (bf : BloomFilter)
    → IsSized bf
    → contains_from left i s (add_from left i s bf) ≡ true
unfolding add_from
contains_from-add_from_self zero i s bf v = unfold contains_from in refl
contains_from-add_from_self (suc left) i s bf v =
    let n = bit_index bf s i in
    let bf' = set_bit bf n in
    let sized = set_bit-IsSized bf n v in
    let seen : bit_clear (add_from left (i + 1) s bf') n ≡ false =
      bit_clear-add_from left (i + 1) n s bf' sized
        (bit_clear-set_bit_self bf n v (bit_index-lt bf s i v.positive)) in
    let rest = contains_from-add_from_self left (i + 1) s bf' sized in
    let after = add_from left (i + 1) s bf' in
    let index : bit_index (add_from left (i + 1) s bf') s i ≡ n =
      bit_index-add_from left (i + 1) i s s bf' ∙ bit_index-set_bit bf n i s in
    contains_round left i s after (ap (bit_clear after) index ∙ seen) rest

add_from-k : (left i : ℕ) (s : Bytes) (bf : BloomFilter) → (add_from left i s bf).k ≡ bf.k
unfolding add_from set_bit
add_from-k zero i s bf = refl
add_from-k (suc left) i s bf = add_from-k left (i + 1) s (set_bit bf (bit_index bf s i))

add_from-IsSized :
    (left i : ℕ) (s : Bytes) (bf : BloomFilter) → IsSized bf → IsSized (add_from left i s bf)
unfolding add_from
add_from-IsSized zero i s bf v = v
add_from-IsSized (suc left) i s bf v =
    add_from-IsSized left (i + 1) s _ (set_bit-IsSized bf (bit_index bf s i) v)

pub add-IsSized : (s : Bytes) (bf : BloomFilter) → IsSized bf → IsSized (add s bf)
unfolding add
add-IsSized s bf v = add_from-IsSized bf.k 0 s bf v

-- What was added is contained.
pub maybe_contains-add_self :
    (s : Bytes) (bf : BloomFilter) → IsSized bf → maybe_contains s (add s bf) ≡ true
unfolding maybe_contains add
maybe_contains-add_self s bf v =
    ap (λ k. contains_from k 0 s (add_from bf.k 0 s bf)) (add_from-k bf.k 0 s bf)
    ∙ contains_from-add_from_self bf.k 0 s bf v

-- What is contained stays so when more is added.
pub maybe_contains-add :
    (s t : Bytes) (bf : BloomFilter)
    → IsSized bf
    → maybe_contains t bf ≡ true
    → maybe_contains t (add s bf) ≡ true
unfolding maybe_contains add
maybe_contains-add s t bf v e =
    ap (λ k. contains_from k 0 t (add_from bf.k 0 s bf)) (add_from-k bf.k 0 s bf)
    ∙ contains_from-add_from bf.k 0 bf.k 0 s t bf v e
