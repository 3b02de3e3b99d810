-- ===== src/Dns/Wire/Responses.antt =====
-- The answers that internal/dns/wire.go builds: NXDOMAIN, SERVFAIL and the sinkhole's A record.
use safeswitch_router.Common.{
  ℕ, ◌+◌, ◌*◌, ◌/◌, ◌%◌, ◌<◌, ◌≤◌, ◌≡◌, refl, [], ◌∷◌, ◌++◌, arith, Bytes, IsByte, All, length,
  take, drop, ◌↔◌, bit_and, bit_or,
}
use safeswitch_router.Common.Bits.{
  set_response_bit, set_recursion_bit, set_low_two_bits, clear_low_four_bits, set_bit_one,
}
use safeswitch_router.Dns.Packet.{word, word_bytes, word-lt}
use safeswitch_router.Dns.Wire.{build_nxdomain, build_servfail, sinkhole_header}

-- The flags of a query `w` in each answer, in plain arithmetic: response and recursion-available
-- bits set, and the response code in the low four bits.
abbrev pub reply_flags : ℕ → ℕ → ℕ
reply_flags w code = 32768 + w % 32768 / 256 * 256 + 128 + w % 128 / 16 * 16 + code

nxdomain_flags :
    (w : ℕ)
    → w < 65536
    → bit_or (bit_or (bit_or w 0x8000) 0x0080) 0x0003 ≡ reply_flags w (w % 16 / 4 * 4 + 3)
nxdomain_flags w h =
    let v : ℕ = (w % 32768 + 32768) / 256 * 256 + 128 + (w % 32768 + 32768) % 128 in
    rw (set_response_bit w h, set_recursion_bit (w % 32768 + 32768) (omega arith))
      (rw (set_low_two_bits v (omega arith)) (omega arith))

pub sinkhole_flags :
    (w : ℕ) → w < 65536 → bit_and (bit_or (bit_or w 0x8000) 0x0080) 0xFFF0 ≡ reply_flags w 0
sinkhole_flags w h =
    let v : ℕ = (w % 32768 + 32768) / 256 * 256 + 128 + (w % 32768 + 32768) % 128 in
    rw (set_response_bit w h, set_recursion_bit (w % 32768 + 32768) (omega arith))
      (rw (clear_low_four_bits v (omega arith)) (omega arith))

servfail_flags :
    (w : ℕ)
    → w < 65536
    → bit_or (bit_and (bit_or w 0x8000) 0xFFF0) 0x0002 ≡ 32768 + w % 32768 / 16 * 16 + 2
servfail_flags w h =
    rw (set_response_bit w h, clear_low_four_bits (w % 32768 + 32768) (omega arith))
      (rw (set_bit_one (w % 32768 + 32768) (omega arith)) (omega arith))

build_nxdomain_lem :
    (q : Bytes)
    → 12 ≤ length q
    → build_nxdomain q
      ≡ take 2 q
        ++ (word_bytes (bit_or (bit_or (bit_or (word q 2) 0x8000) 0x0080) 0x0003)
            ++ (take 2 (drop 4 q) ++ (0 ∷ 0 ∷ 0 ∷ 0 ∷ 0 ∷ 0 ∷ drop 12 q)))
unfolding build_nxdomain
build_nxdomain_lem (a ∷ b ∷ c ∷ d ∷ e ∷ f ∷ g ∷ i ∷ j ∷ k ∷ l ∷ m ∷ r) h = ground arith
build_nxdomain_lem _ h = absurd (omega arith)

build_servfail_lem :
    (q : Bytes)
    → 12 ≤ length q
    → build_servfail q
      ≡ take 2 q
        ++ (word_bytes (bit_or (bit_and (bit_or (word q 2) 0x8000) 0xFFF0) 0x0002)
            ++ (0 ∷ 0 ∷ 0 ∷ 0 ∷ 0 ∷ 0 ∷ 0 ∷ 0 ∷ []))
unfolding build_servfail
build_servfail_lem (a ∷ b ∷ c ∷ d ∷ e ∷ f ∷ g ∷ i ∷ j ∷ k ∷ l ∷ m ∷ r) h = ground arith
build_servfail_lem _ h = absurd (omega arith)

pub sinkhole_header_lem :
    (q : Bytes)
    → 12 ≤ length q
    → sinkhole_header q
      ≡ take 2 q
        ++ (word_bytes (bit_and (bit_or (bit_or (word q 2) 0x8000) 0x0080) 0xFFF0)
            ++ (0 ∷ 1 ∷ 0 ∷ 1 ∷ 0 ∷ 0 ∷ 0 ∷ 0 ∷ []))
unfolding sinkhole_header
sinkhole_header_lem (a ∷ b ∷ c ∷ d ∷ e ∷ f ∷ g ∷ i ∷ j ∷ k ∷ l ∷ m ∷ r) h = refl
sinkhole_header_lem _ h = absurd (omega arith)

-- The words of a twelve-byte header followed by anything.
abbrev pub HasHeader : Bytes → (id flags qd an ns ar : ℕ) → Type 0
HasHeader r id flags qd an ns ar =
    (word r 0 ≡ id)
    × (word r 2 ≡ flags)
    × (word r 4 ≡ qd)
    × (word r 6 ≡ an)
    × (word r 8 ≡ ns)
    × (word r 10 ≡ ar)

nxdomain_layout :
    (q : Bytes) (flags : ℕ) (r : Bytes)
    → 12 ≤ length q
    → flags < 65536
    → r
      ≡ take 2 q ++ (word_bytes flags ++ (take 2 (drop 4 q) ++ (0 ∷ 0 ∷ 0 ∷ 0 ∷ 0 ∷ 0 ∷ drop 12 q)))
    → HasHeader r (word q 0) flags (word q 4) 0 0 0
      × (drop 12 r ≡ drop 12 q)
      × (length r ≡ length q)
unfolding word word_bytes
nxdomain_layout (a ∷ b ∷ c ∷ d ∷ e ∷ f ∷ g ∷ i ∷ j ∷ k ∷ l ∷ m ∷ q) flags r h v x =
    rw x ((refl, omega arith, refl, refl, refl, refl), refl, refl)
nxdomain_layout _ flags r h v x = absurd (omega arith)

-- NXDOMAIN keeps the query's length, its id, its question count and all behind the header, clears
-- the other counts, and sets the response bits. The response code is 3 exactly if the query's own
-- was below 4: its bits are never cleared.
pub build_nxdomain-header :
    (q : Bytes)
    → 12 ≤ length q
    → All IsByte q
    → HasHeader
        (build_nxdomain q)
        (word q 0)
        (reply_flags (word q 2) (word q 2 % 16 / 4 * 4 + 3))
        (word q 4)
        0
        0
        0
      × (drop 12 (build_nxdomain q) ≡ drop 12 q)
      × (length (build_nxdomain q) ≡ length q)
      × ((word (build_nxdomain q) 2 % 16 ≡ 3) ↔ (word q 2 % 16 < 4))
build_nxdomain-header q h v =
    let low = word-lt q 2 v in
    let shape = rw (nxdomain_flags (word q 2) low) at (build_nxdomain_lem q h) in
    let (header, body, size) = nxdomain_layout q _ (build_nxdomain q) h (omega arith) shape in
    (header, body, size, (omega arith, omega arith))

servfail_layout :
    (q : Bytes) (flags : ℕ) (r : Bytes)
    → 12 ≤ length q
    → flags < 65536
    → r ≡ take 2 q ++ (word_bytes flags ++ (0 ∷ 0 ∷ 0 ∷ 0 ∷ 0 ∷ 0 ∷ 0 ∷ 0 ∷ []))
    → HasHeader r (word q 0) flags 0 0 0 0 × (length r ≡ 12)
unfolding word word_bytes
servfail_layout (a ∷ b ∷ c ∷ d ∷ e ∷ f ∷ g ∷ i ∷ j ∷ k ∷ l ∷ m ∷ q) flags r h v x =
    rw x ((refl, omega arith, refl, refl, refl, refl), refl)
servfail_layout _ flags r h v x = absurd (omega arith)

-- SERVFAIL is a bare header: the query's id, the response bit, response code 2, and no counts.
pub build_servfail-header :
    (q : Bytes)
    → 12 ≤ length q
    → All IsByte q
    → HasHeader (build_servfail q) (word q 0) (32768 + word q 2 % 32768 / 16 * 16 + 2) 0 0 0 0
      × (length (build_servfail q) ≡ 12)
build_servfail-header q h v =
    let low = word-lt q 2 v in
    servfail_layout q (32768 + word q 2 % 32768 / 16 * 16 + 2) (build_servfail q) h (omega arith)
      (rw (servfail_flags (word q 2) low) at (build_servfail_lem q h))
