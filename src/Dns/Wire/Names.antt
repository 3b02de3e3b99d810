-- ===== src/Dns/Wire/Names.antt =====
-- What `readName` of internal/dns/wire.go does on names as they stand in a message.
use safeswitch_router.Common.{
  ℕ, zero, suc, ◌+◌, ◌-◌, ◌/◌, ◌%◌, ◌<◌, ◌≤◌, ◌≡◌, ap, ◌∙◌, List, [], ◌∷◌, ◌++◌, arith, Bytes,
  bytes, All, length, length-append, append_assoc, append-nil,
}
use safeswitch_router.Common.Bits.{top_two_bits, low_six_bits}
use safeswitch_router.Common.Text.{join}
use safeswitch_router.Dns.Packet.{byte_at, slice}
use safeswitch_router.Dns.Segments.{
  At, At-byte, At-tail, At-left, At-right, At-eq, At-bound, At-slice,
}
use safeswitch_router.Dns.Wire.{ok, read_name_loop, read_name, pointer, visit, consumed}

-- A label of a domain name: 1 to 63 bytes.
pub record IsLabel (l : Bytes) : Type 0 where
  pub nonempty : 0 < length l
  pub bounded : length l < 64

-- Labels on the wire, each behind its length.
abbrev pub wire_labels : List Bytes → Bytes
wire_labels [] = []
wire_labels (l ∷ ls) = length l ∷ l ++ wire_labels ls

-- A whole name: its labels and the root.
abbrev pub wire_name : List Bytes → Bytes
wire_name ls = wire_labels ls ++ 0 ∷ []

-- A compression pointer to offset `p`.
abbrev pub wire_pointer : ℕ → Bytes
wire_pointer p = (192 + p / 256) ∷ p % 256 ∷ []

-- One round of the loop on a label, on the root, and on a pointer.
label_round :
    (fuel : ℕ) (b : Bytes) (start p visited : ℕ) (done : List Bytes) (l : Bytes)
    → IsLabel l
    → At b p (length l ∷ l)
    → read_name_loop (suc fuel) b start p visited done
      ≡ read_name_loop fuel b start (p + 1 + length l) visited (done ++ l ∷ [])
unfolding read_name_loop
label_round fuel b start p visited done l v at = ground (
  arith,
  At-byte b p (length l) l at,
  At-bound b p (length l ∷ l) at,
  At-slice b (p + 1) l (At-tail b p (length l) l at),
  top_two_bits (length l),
)

root_round :
    (fuel : ℕ) (b : Bytes) (start p visited : ℕ) (done : List Bytes)
    → At b p (0 ∷ [])
    → read_name_loop (suc fuel) b start p visited done
      ≡ ok (join (bytes ".") done, consumed start (p + 1) visited)
unfolding read_name_loop
root_round fuel b start p visited done at =
    ground (arith, At-byte b p 0 [] at, At-bound b p (0 ∷ []) at)

pub pointer_round :
    (fuel : ℕ) (b : Bytes) (start p visited target : ℕ) (done : List Bytes)
    → target < 16384
    → At b p (wire_pointer target)
    → read_name_loop (suc fuel) b start p visited done
      ≡ read_name_loop fuel b start target (visit start (p + 2) visited) done
unfolding read_name_loop
pointer_round fuel b start p visited target done h at =
    let first = At-byte b p (192 + target / 256) (target % 256 ∷ []) at in
    let rest = At-tail b p (192 + target / 256) (target % 256 ∷ []) at in
    let second = At-byte b (p + 1) (target % 256) [] rest in
    let high = top_two_bits (192 + target / 256) (omega arith) in
    let low = low_six_bits (192 + target / 256) (omega arith) in
    let aim : pointer b p ≡ target = rw (first, second, low) (omega arith) in
    ground (arith, first, high, aim, At-bound b p (wire_pointer target) at)

-- All the labels of a name, one round each.
pub labels_rounds :
    (ls : List Bytes) (fuel : ℕ) (b : Bytes) (start p visited : ℕ) (done : List Bytes)
    → All IsLabel ls
    → At b p (wire_labels ls)
    → read_name_loop (length ls + fuel) b start p visited done
      ≡ read_name_loop fuel b start (p + length (wire_labels ls)) visited (done ++ ls)
labels_rounds [] fuel b start p visited done v at = rw (append-nil done) (
    ap (λ k. read_name_loop k b start p visited done) (omega arith)
    ∙ ap (λ k. read_name_loop fuel b start k visited done) (omega arith))
labels_rounds (l ∷ ls) fuel b start p visited done v at =
    let head : Bytes = length l ∷ l in
    let next : At b (p + 1 + length l) (wire_labels ls) =
      At-eq b (p + length head) (p + 1 + length l) (wire_labels ls) (omega arith)
        (At-right b p head (wire_labels ls) at) in
    let size : p + 1 + length l + length (wire_labels ls) ≡ p + length (wire_labels (l ∷ ls)) =
      omega (arith, length-append l (wire_labels ls)) in
    ap (λ k. read_name_loop k b start p visited done) (omega arith)
    ∙ label_round (length ls + fuel) b start p visited done l v.0
        (At-left b p head (wire_labels ls) at)
    ∙ labels_rounds ls fuel b start (p + 1 + length l) visited (done ++ l ∷ []) v.1 next
    ∙ ap (λ k. read_name_loop fuel b start k visited (done ++ l ∷ [] ++ ls)) size
    ∙ ap (read_name_loop fuel b start (p + length (wire_labels (l ∷ ls))) visited)
        (append_assoc done (l ∷ []) ls)

-- Fuel for the labels of `ls`, one more round, and the rest.
split_fuel : (n fuel : ℕ) → n < fuel → fuel ≡ n + suc (fuel - n - 1)
split_fuel n fuel h = omega arith

-- A name written without compression is read back as its labels joined by dots, and the bytes
-- consumed are those of the name, whatever stands around it.
pub read_name-wire_name :
    (ls : List Bytes) (fuel : ℕ) (b : Bytes) (p : ℕ)
    → All IsLabel ls
    → At b p (wire_name ls)
    → length ls < fuel
    → read_name fuel b p ≡ ok (join (bytes ".") ls, length (wire_name ls))
unfolding read_name
read_name-wire_name ls fuel b p v at h =
    let size : consumed p (p + length (wire_labels ls) + 1) 0 ≡ length (wire_name ls) =
      omega (arith, length-append (wire_labels ls) (0 ∷ [])) in
    ap (λ k. read_name_loop k b p p 0 []) (split_fuel (length ls) fuel h)
    ∙ labels_rounds ls (suc (fuel - length ls - 1)) b p p 0 [] v
        (At-left b p (wire_labels ls) (0 ∷ []) at)
    ∙ root_round (fuel - length ls - 1) b p (p + length (wire_labels ls)) 0 ls
        (At-right b p (wire_labels ls) (0 ∷ []) at)
    ∙ ap (λ n. ok (join (bytes ".") ls, n)) size

-- A name that ends in a pointer is read as its own labels followed by those of the name that the
-- pointer aims at; the bytes consumed are those up to behind the pointer.
pub read_name-wire_pointer :
    (ls ts : List Bytes) (fuel : ℕ) (b : Bytes) (p q : ℕ)
    → All IsLabel ls
    → All IsLabel ts
    → q < 16384
    → At b p (wire_labels ls ++ wire_pointer q)
    → At b q (wire_name ts)
    → length ls + length ts + 1 < fuel
    → read_name fuel b p ≡ ok (join (bytes ".") (ls ++ ts), length (wire_labels ls) + 2)
unfolding read_name
read_name-wire_pointer ls ts fuel b p q v w hq at target h =
    let rest = fuel - length ls - 1 in
    let rest' = rest - length ts - 1 in
    let seen = visit p (p + length (wire_labels ls) + 2) 0 in
    let size : consumed p (q + length (wire_labels ts) + 1) seen ≡ length (wire_labels ls) + 2 =
      ground arith in
    ap (λ k. read_name_loop k b p p 0 []) (split_fuel (length ls) fuel (omega arith))
    ∙ labels_rounds ls (suc rest) b p p 0 [] v (At-left b p (wire_labels ls) (wire_pointer q) at)
    ∙ pointer_round rest b p (p + length (wire_labels ls)) 0 q ls hq
        (At-right b p (wire_labels ls) (wire_pointer q) at)
    ∙ ap (λ k. read_name_loop k b p q seen ls) (split_fuel (length ts) rest (omega arith))
    ∙ labels_rounds ts (suc rest') b p q seen ls w (At-left b q (wire_labels ts) (0 ∷ []) target)
    ∙ root_round rest' b p (q + length (wire_labels ts)) seen (ls ++ ts)
        (At-right b q (wire_labels ts) (0 ∷ []) target)
    ∙ ap (λ n. ok (join (bytes ".") (ls ++ ts), n)) size

-- The bytes consumed and the place behind them.
read_name_loop-bound :
    (fuel : ℕ) (b : Bytes) (start p visited : ℕ) (done : List Bytes) (name : Bytes) (n : ℕ)
    → start ≤ length b
    → start + visited ≤ length b
    → (visited ≡ 0 → start ≤ p)
    → read_name_loop fuel b start p visited done ≡ ok (name, n)
    → (1 ≤ n) × (start + n ≤ length b)
unfolding read_name_loop
read_name_loop-bound zero b start p visited done name n hs hv fresh e = cc
read_name_loop-bound (suc fuel) b start p visited done name n hs hv fresh e = ground (
  arith,
  fresh,
  read_name_loop-bound fuel b start (pointer b p) (visit start (p + 2) visited) done name n,
  read_name_loop-bound fuel b start (p + 1 + byte_at b p) visited
      (done ++ slice b (p + 1) (p + 1 + byte_at b p) ∷ []) name n,
)

-- A name that is read takes a byte at least, and ends within the message.
pub read_name-bound :
    (fuel : ℕ) (b : Bytes) (p : ℕ) (name : Bytes) (n : ℕ)
    → read_name fuel b p ≡ ok (name, n)
    → (1 ≤ n) × (p + n ≤ length b)
unfolding read_name read_name_loop
read_name-bound zero b p name n e = cc
read_name-bound (suc fuel) b p name n e =
    ground (arith, read_name_loop-bound (suc fuel) b p p 0 [] name n)
