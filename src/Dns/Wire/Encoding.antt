-- ===== src/Dns/Wire/Encoding.antt =====
-- The name that `buildSinkholeA` of internal/dns/wire.go writes back into its answer.
use safeswitch_router.Common.{
  ◌%◌, ◌≡◌, ◌≢◌, refl, sym, ap, ◌∙◌, List, [], ◌∷◌, ◌++◌, arith, Bytes, bytes, All, length,
  append_assoc, append-nil,
}
use safeswitch_router.Common.Text.{join, split, split_from}
use safeswitch_router.Dns.Wire.{encode_labels, encode_name}
use safeswitch_router.Dns.Wire.Names.{IsLabel, wire_labels}

-- No label holds a dot, so joining and splitting give the labels back.
abbrev pub NoDot : Bytes → Type 0
NoDot = All (λ c. c ≢ 46)

split_from_part :
    (part l rest : Bytes)
    → NoDot l
    → split_from b'.' part (l ++ rest) ≡ split_from b'.' (part ++ l) rest
unfolding split_from
split_from_part part [] rest h = rw (append-nil part)
split_from_part part (c ∷ l) rest h =
    ground (arith, h.0, split_from_part (part ++ c ∷ []) l rest h.1, append_assoc part (c ∷ []) l)

split-join :
    (l : Bytes) (ls : List Bytes)
    → All NoDot (l ∷ ls)
    → split b'.' (join (bytes ".") (l ∷ ls)) ≡ l ∷ ls
unfolding split join
split-join l [] h = ap (split_from b'.' []) (sym (append-nil l)) ∙ split_from_part [] l [] h.0
split-join l (k ∷ ls) h =
    split_from_part [] l (46 ∷ join (bytes ".") (k ∷ ls)) h.0 ∙ ap (◌∷◌ l) (split-join k ls h.1)

encode_labels-wire_labels : (ls : List Bytes) → All IsLabel ls → encode_labels ls ≡ wire_labels ls
unfolding encode_labels
encode_labels-wire_labels [] v = refl
encode_labels-wire_labels (l ∷ ls) v =
    let small : length l % 256 ≡ length l = omega (arith, v.0.bounded) in
    ground (arith, v.0.nonempty, small, encode_labels-wire_labels ls v.1)

-- The name that the builder writes out is the one that the parser read, if no label holds a dot.
pub encode_name-join :
    (ls : List Bytes)
    → All IsLabel ls
    → All NoDot ls
    → encode_name (join (bytes ".") ls) ≡ wire_labels ls
unfolding encode_name
encode_name-join [] v n = unfold encode_labels join split split_from in refl
encode_name-join (l ∷ ls) v n =
    ap encode_labels (split-join l ls n) ∙ encode_labels-wire_labels (l ∷ ls) v
