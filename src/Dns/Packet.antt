-- ===== src/Dns/Packet.antt =====
-- Byte access in a DNS message: Go's slicing and encoding/binary's big-endian words.
use safeswitch_router.Common.{
  ℕ, zero, suc, ◌+◌, ◌-◌, ◌*◌, ◌/◌, ◌%◌, ◌<◌, ◌≡◌, ap, ◌∙◌, [], ◌∷◌, ◌++◌, arith, Bytes, IsByte,
  All, length, get_or, take, drop, get_or_append,
}

-- `b[i]`. The callers test the bounds first; Go panics where they do not hold.
abbrev pub byte_at : Bytes → ℕ → ℕ
byte_at b i = get_or b i 0

-- `b[i:j]`
abbrev pub slice : Bytes → ℕ → ℕ → Bytes
slice b i j = take (j - i) (drop i b)

-- `binary.BigEndian.Uint16(b[i:i+2])`
unfoldable pub word : Bytes → ℕ → ℕ
word b i = byte_at b i * 256 + byte_at b (i + 1)

-- The two bytes that `binary.BigEndian.PutUint16` writes for a `uint16`.
unfoldable pub word_bytes : ℕ → Bytes
word_bytes w = w / 256 % 256 ∷ w % 256 ∷ []

-- `binary.BigEndian.PutUint16(b[i:i+2], w)`
unfoldable pub put_word : Bytes → ℕ → ℕ → Bytes
unfolding word_bytes
put_word b i w = take i b ++ (word_bytes w ++ drop (i + 2) b)

-- A bound on all bytes, and on the 0 read past the end.
pub All-byte_at : (n : ℕ) (b : Bytes) (i : ℕ) → 0 < n → All (λ c. c < n) b → byte_at b i < n
All-byte_at n [] i pos h = pos
All-byte_at n (x ∷ b) zero pos h = h.0
All-byte_at n (x ∷ b) (suc i) pos h = All-byte_at n b i pos h.1

pub byte_at-IsByte : (b : Bytes) (i : ℕ) → All IsByte b → IsByte (byte_at b i)
byte_at-IsByte b i h = All-byte_at 256 b i (omega arith) h

pub word-lt : (b : Bytes) (i : ℕ) → All IsByte b → word b i < 65536
unfolding word
word-lt b i h = omega (arith, byte_at-IsByte b i h, byte_at-IsByte b (i + 1) h)

-- A word behind a prefix.
pub word_append : (pre b : Bytes) (i : ℕ) → word (pre ++ b) (length pre + i) ≡ word b i
unfolding word
word_append pre b i =
    let e : length pre + i + 1 ≡ length pre + (i + 1) = omega arith in
    ap (λ n. get_or (pre ++ b) (length pre + i) 0 * 256 + get_or (pre ++ b) n 0) e
    ∙ ap (λ (n : ℕ). n * 256 + get_or (pre ++ b) (length pre + (i + 1)) 0) (get_or_append pre b i 0)
    ∙ ap (λ (n : ℕ). get_or b i 0 * 256 + n) (get_or_append pre b (i + 1) 0)

pub word-word_bytes : (w : ℕ) (rest : Bytes) → w < 65536 → word (word_bytes w ++ rest) 0 ≡ w
unfolding word word_bytes
word-word_bytes w rest h = omega arith
