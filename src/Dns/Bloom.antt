-- ===== src/Dns/Bloom.antt =====
-- The Bloom filter of internal/dns/blocklist.go: double hashing with FNV-1a (hash/fnv's New64a).
pub mod Members
use safeswitch_router.Common.{
  ℕ, zero, suc, ◌+◌, ◌*◌, ◌/◌, ◌%◌, ◌^◌, Bool, true, false, List, [], ◌∷◌, bit_and, bit_or, bit_xor,
  Bytes, get_or, set, replicate, ◌==◌, if◌then◌else◌,
}

pub record BloomFilter : Type 0 where
  pub bits : List ℕ
  pub m : ℕ
  pub k : ℕ

-- One byte more: `hash ^= b; hash *= prime64`.
unfoldable pub fnv_step : ℕ → ℕ → ℕ
fnv_step h b = bit_xor h b * 1099511628211 % 2 ^ 64

unfoldable pub fnv_write : ℕ → Bytes → ℕ
unfolding fnv_step
fnv_write h [] = h
fnv_write h (b ∷ bs) = fnv_write (fnv_step h b) bs

-- The state after `New64a` and after `Reset`.
abbrev pub fnv_offset : ℕ
fnv_offset = 14695981039346656037

unfoldable pub new_bloom : ℕ → ℕ → BloomFilter
new_bloom bits k = record { bits = replicate ((bits + 63) / 64) 0; m = bits; k = k }

unfoldable pub hashes : Bytes → ℕ × ℕ
unfolding fnv_write
hashes s = (fnv_write fnv_offset s, fnv_write (fnv_write fnv_offset (0x5a ∷ [])) s)

-- `(h1 + i*h2) % bf.m` in 64-bit arithmetic.
unfoldable pub bit_index : BloomFilter → Bytes → ℕ → ℕ
bit_index bf s i = ((hashes s).0 + i * (hashes s).1) % 2 ^ 64 % bf.m

-- `bf.bits[idx/64] |= 1 << (idx % 64)`
unfoldable pub set_bit : BloomFilter → ℕ → BloomFilter
set_bit bf idx = record bf {
  bits = set bf.bits (idx / 64) (bit_or (get_or bf.bits (idx / 64) 0) (2 ^ (idx % 64)));
}

-- The rounds `i`, `i+1`, … of the loop, `left` of them.
unfoldable pub add_from : ℕ → ℕ → Bytes → BloomFilter → BloomFilter
add_from zero i s bf = bf
add_from (suc left) i s bf = add_from left (i + 1) s (set_bit bf (bit_index bf s i))

unfoldable pub add : Bytes → BloomFilter → BloomFilter
add s bf = add_from bf.k 0 s bf

unfoldable pub bit_clear : BloomFilter → ℕ → Bool
bit_clear bf idx = bit_and (get_or bf.bits (idx / 64) 0) (2 ^ (idx % 64)) == 0

unfoldable pub contains_from : ℕ → ℕ → Bytes → BloomFilter → Bool
contains_from zero i s bf = true
contains_from (suc left) i s bf =
    let rest = contains_from left (i + 1) s bf in
    if bit_clear bf (bit_index bf s i) then false else rest

unfoldable pub maybe_contains : Bytes → BloomFilter → Bool
maybe_contains s bf = contains_from bf.k 0 s bf
