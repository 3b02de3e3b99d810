-- ===== src/Dns/Wire/Endings.antt =====
-- On which names the loop of `readName` of internal/dns/wire.go ends.
use safeswitch_router.Common.{
  ℕ, zero, suc, ◌+◌, ◌*◌, ◌<◌, ◌≤◌, ◌≡◌, ◌≢◌, refl, ap, ◌∙◌, List, [], ◌∷◌, ◌++◌, arith, Bytes, All,
  length,
}
use safeswitch_router.Common.Bits.{top_two_bits}
use safeswitch_router.Dns.Packet.{byte_at, slice}
use safeswitch_router.Dns.Segments.{At, At-left, At-right}
use safeswitch_router.Dns.Wire.{stuck, read_name_loop, read_name, pointer, visit}
use safeswitch_router.Dns.Wire.Names.{
  IsLabel, wire_labels, wire_pointer, labels_rounds, pointer_round,
}

-- Less fuel cannot end what more does not.
stuck_pred :
    (fuel : ℕ) (b : Bytes) (start p visited : ℕ) (done : List Bytes)
    → read_name_loop (suc fuel) b start p visited done ≡ stuck
    → read_name_loop fuel b start p visited done ≡ stuck
unfolding read_name_loop
stuck_pred zero b start p visited done e = refl
stuck_pred (suc fuel) b start p visited done e = ground (
  arith,
  stuck_pred fuel b start (pointer b p) (visit start (p + 2) visited) done,
  stuck_pred fuel b start (p + 1 + byte_at b p) visited
      (done ++ slice b (p + 1) (p + 1 + byte_at b p) ∷ []),
)

pub stuck_mono :
    (more fuel : ℕ) (b : Bytes) (start p visited : ℕ) (done : List Bytes)
    → read_name_loop (more + fuel) b start p visited done ≡ stuck
    → read_name_loop fuel b start p visited done ≡ stuck
stuck_mono zero fuel b start p visited done e =
    ap (λ k. read_name_loop k b start p visited done) (omega arith) ∙ e
stuck_mono (suc more) fuel b start p visited done e = stuck_mono more fuel b start p visited done (
    stuck_pred (more + fuel) b start p visited done
      (ap (λ k. read_name_loop k b start p visited done) (omega arith) ∙ e))

no_fuel :
    (b : Bytes) (start p visited : ℕ) (done : List Bytes)
    → read_name_loop 0 b start p visited done ≡ stuck
unfolding read_name_loop
no_fuel b start p visited done = refl

module _ (ls : List Bytes) (b : Bytes) (p : ℕ) (v : All IsLabel ls) (hp : p < 16384)
    (at : At b p (wire_labels ls ++ wire_pointer p)) where
  cycles :
      (n start visited : ℕ) (done : List Bytes)
      → read_name_loop (n * suc (length ls)) b start p visited done ≡ stuck
  cycles zero start visited done =
      ap (λ k. read_name_loop k b start p visited done) (omega arith)
      ∙ no_fuel b start p visited done
  cycles (suc n) start visited done =
      ap (λ k. read_name_loop k b start p visited done) (grind arith)
      ∙ labels_rounds ls (suc (n * suc (length ls))) b start p visited done v
          (At-left b p (wire_labels ls) (wire_pointer p) at)
      ∙ pointer_round (n * suc (length ls)) b start (p + length (wire_labels ls)) visited p
          (done ++ ls) hp (At-right b p (wire_labels ls) (wire_pointer p) at)
      ∙ cycles n start _ (done ++ ls)

  -- The loop never ends on a name whose closing pointer aims at its own first byte: no number of
  -- rounds is enough.
  pub read_name-cycle : (fuel : ℕ) → read_name fuel b p ≡ stuck
  unfolding read_name
  read_name-cycle fuel =
      stuck_mono (fuel * length ls) fuel b p p 0 []
        (ap (λ k. read_name_loop k b p p 0 []) (grind arith) ∙ cycles fuel p 0 [])

-- No byte from offset `p` on starts a pointer.
abbrev pub NoPointers : Bytes → ℕ → Type 0
NoPointers b p = (i : ℕ) → p ≤ i → byte_at b i < 192

read_name_loop-ne-stuck :
    (fuel : ℕ) (b : Bytes) (start p visited : ℕ) (done : List Bytes)
    → NoPointers b p
    → 0 < fuel
    → length b < p + fuel
    → read_name_loop fuel b start p visited done ≢ stuck
unfolding read_name_loop
read_name_loop-ne-stuck zero b start p visited done free pos h = absurd (omega arith)
read_name_loop-ne-stuck (suc fuel) b start p visited done free pos h = ground (
  arith,
  free p (omega arith),
  top_two_bits (byte_at b p),
  read_name_loop-ne-stuck fuel b start (p + 1 + byte_at b p) visited
      (done ++ slice b (p + 1) (p + 1 + byte_at b p) ∷ []) (λ i q. free i (omega arith)),
)

-- With no pointer ahead the loop ends within as many rounds as bytes are left, and one.
pub read_name-ne-stuck :
    (fuel : ℕ) (b : Bytes) (p : ℕ)
    → NoPointers b p
    → 0 < fuel
    → length b < p + fuel
    → read_name fuel b p ≢ stuck
unfolding read_name
read_name-ne-stuck fuel b p free pos h = read_name_loop-ne-stuck fuel b p p 0 [] free pos h
