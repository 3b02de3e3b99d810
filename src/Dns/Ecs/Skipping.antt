-- ===== src/Dns/Ecs/Skipping.antt =====
-- `skipName` of internal/dns/ecs_strip.go against names on the wire and against `readName`.
use safeswitch_router.Common.{
  ℕ, zero, suc, ◌+◌, ◌-◌, ◌<◌, ◌≤◌, ◌≡◌, ap, List, [], ◌∷◌, ◌++◌, arith, Bytes, IsByte, All, length,
  length-append, append_assoc, ◌⊎◌,
}
use safeswitch_router.Common.Bits.{top_two_bits}
use safeswitch_router.Dns.Packet.{byte_at, slice, byte_at-IsByte}
use safeswitch_router.Dns.Segments.{At, At-byte, At-right, At-eq, At-append, At-bound}
use safeswitch_router.Dns.Wire.{ok, read_name_loop, read_name, pointer}
use safeswitch_router.Dns.Wire.Names.{IsLabel, wire_labels, wire_name}
use safeswitch_router.Dns.Ecs.{at, err, bad_label, skip_name_loop, skip_name}

skip_name_loop-wire_name :
    (ls : List Bytes) (fuel : ℕ) (b : Bytes) (p : ℕ)
    → All IsLabel ls
    → At b p (wire_name ls)
    → length b ≤ p + fuel
    → skip_name_loop fuel b p ≡ at (p + length (wire_name ls))
unfolding skip_name_loop
skip_name_loop-wire_name ls zero b p v here h =
    absurd
      (omega (arith, At-bound b p (wire_name ls) here, length-append (wire_labels ls) (0 ∷ [])))
skip_name_loop-wire_name [] (suc fuel) b p v here h =
    ground (arith, At-byte b p 0 [] here, At-bound b p (0 ∷ []) here)
skip_name_loop-wire_name (l ∷ ls) (suc fuel) b p v here h =
    let head : Bytes = length l ∷ l in
    let here' : At b p (head ++ wire_name ls) = At-append b p head (wire_labels ls) (0 ∷ []) here in
    let next : At b (p + (1 + length l)) (wire_name ls) =
      At-eq b (p + length head) (p + (1 + length l)) (wire_name ls) (omega arith)
        (At-right b p head (wire_name ls) here') in
    let size : length (wire_name (l ∷ ls)) ≡ 1 + length l + length (wire_name ls) = omega (
      arith,
      ap length (append_assoc head (wire_labels ls) (0 ∷ [])),
      length-append l (wire_name ls),
    ) in
    ground (
      arith,
      At-byte b p (length l) (l ++ wire_name ls) here',
      At-bound b p (wire_name (l ∷ ls)) here,
      v.0.bounded,
      v.0.nonempty,
      top_two_bits (length l),
      size,
      skip_name_loop-wire_name ls fuel b (p + (1 + length l)) v.1 next,
    )

pub skip_name-wire_name :
    (ls : List Bytes) (b : Bytes) (p : ℕ)
    → All IsLabel ls
    → At b p (wire_name ls)
    → skip_name b p ≡ at (p + length (wire_name ls))
unfolding skip_name
skip_name-wire_name ls b p v here =
    skip_name_loop-wire_name ls (length b - p) b p v here (omega arith)

-- Once a pointer has been followed the bytes consumed are settled.
read_name_loop-visited :
    (fuel : ℕ) (b : Bytes) (start p visited : ℕ) (done : List Bytes) (name : Bytes) (n : ℕ)
    → 0 < visited
    → read_name_loop fuel b start p visited done ≡ ok (name, n)
    → n ≡ visited
unfolding read_name_loop
read_name_loop-visited zero b start p visited done name n h e = cc
read_name_loop-visited (suc fuel) b start p visited done name n h e = ground (
  arith,
  read_name_loop-visited fuel b start (pointer b p) visited done name n h,
  read_name_loop-visited fuel b start (p + 1 + byte_at b p) visited
      (done ++ slice b (p + 1) (p + 1 + byte_at b p) ∷ []) name n h,
)

skip_name_loop-read_name_loop :
    (fuel fuel' : ℕ) (b : Bytes) (start p : ℕ) (done : List Bytes) (name : Bytes) (n : ℕ)
    → All IsByte b
    → start ≤ p
    → length b ≤ p + fuel'
    → read_name_loop fuel b start p 0 done ≡ ok (name, n)
    → (skip_name_loop fuel' b p ≡ at (start + n)) ⊎ (skip_name_loop fuel' b p ≡ err bad_label)
unfolding read_name_loop skip_name_loop
skip_name_loop-read_name_loop zero fuel' b start p done name n v hs hb e = cc
skip_name_loop-read_name_loop (suc fuel) zero b start p done name n v hs hb e = ground arith
skip_name_loop-read_name_loop (suc fuel) (suc fuel') b start p done name n v hs hb e = ground (
  arith,
  read_name_loop-visited fuel b start (pointer b p) (p + 2 - start) done name n,
  top_two_bits (byte_at b p) (byte_at-IsByte b p v),
  skip_name_loop-read_name_loop fuel fuel' b start (p + 1 + byte_at b p)
      (done ++ slice b (p + 1) (p + 1 + byte_at b p) ∷ []) name n v,
)

-- Wherever the parser reads a name the skipper steps over the same bytes, or meets a length byte
-- of 64 to 191, which only the skipper refuses.
pub skip_name-read_name :
    (fuel : ℕ) (b : Bytes) (p : ℕ) (name : Bytes) (n : ℕ)
    → All IsByte b
    → read_name fuel b p ≡ ok (name, n)
    → (skip_name b p ≡ at (p + n)) ⊎ (skip_name b p ≡ err bad_label)
unfolding skip_name read_name
skip_name-read_name fuel b p name n v e =
    skip_name_loop-read_name_loop fuel (length b - p) b p p [] name n v (omega arith) (omega arith)
      e
