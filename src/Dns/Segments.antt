-- ===== src/Dns/Segments.antt =====
-- Texts that stand in a message at an offset.
use safeswitch_router.Common.{
  refl, ◌<◌, ◌/◌, ◌%◌, ℕ, ◌+◌, ◌-◌, ◌≤◌, ◌≡◌, sym, ap, ◌∙◌, [], ◌∷◌, ◌++◌, arith, Bytes, length,
  take, drop, length-append, get_or_append, take_append, drop_append, append_assoc,
}
use safeswitch_router.Dns.Packet.{byte_at, slice, word, word_bytes}

-- The text `s` stands in `b` at offset `p`.
abbrev pub At : Bytes → ℕ → Bytes → Type 0
At b p s = (pre : Bytes) × (post : Bytes) × (b ≡ pre ++ (s ++ post)) × (length pre ≡ p)

pub At-byte : (b : Bytes) (p c : ℕ) (s : Bytes) → At b p (c ∷ s) → byte_at b p ≡ c
At-byte b p c s (pre, post, e, n) =
    let at : p ≡ length pre + 0 = omega arith in cc (e, at, get_or_append pre (c ∷ (s ++ post)) 0 0)

pub At-tail : (b : Bytes) (p c : ℕ) (s : Bytes) → At b p (c ∷ s) → At b (p + 1) s
At-tail b p c s (pre, post, e, n) = (
  pre ++ c ∷ [],
  post,
  e ∙ sym (append_assoc pre (c ∷ []) (s ++ post)),
  length-append pre (c ∷ []) ∙ omega arith,
)

pub At-right : (b : Bytes) (p : ℕ) (s t : Bytes) → At b p (s ++ t) → At b (p + length s) t
At-right b p s t (pre, post, e, n) =
    (pre ++ s, post, simp append_assoc (simp append_assoc at e), length-append pre s ∙ omega arith)

pub At-left : (b : Bytes) (p : ℕ) (s t : Bytes) → At b p (s ++ t) → At b p s
At-left b p s t (pre, post, e, n) = (pre, t ++ post, simp append_assoc at e, n)

pub At-bound : (b : Bytes) (p : ℕ) (s : Bytes) → At b p s → p + length s ≤ length b
At-bound b p s (pre, post, e, n) =
    omega (arith, ap length e, length-append pre (s ++ post), length-append s post)

pub At-slice : (b : Bytes) (p : ℕ) (s : Bytes) → At b p s → slice b p (p + length s) ≡ s
At-slice b p s (pre, post, e, n) =
    let size : p + length s - p ≡ length s = omega arith in
    ap (λ k. take k (drop p b)) size
    ∙ ap (λ (c : Bytes). take (length s) (drop p c)) e
    ∙ ap (λ k. take (length s) (drop k (pre ++ (s ++ post)))) (sym n)
    ∙ ap (take (length s)) (drop_append pre (s ++ post))
    ∙ take_append s post

pub At-eq : (b : Bytes) (p q : ℕ) (s : Bytes) → p ≡ q → At b p s → At b q s
At-eq b p q s h (pre, post, e, n) = (pre, post, e, n ∙ h)

pub At-word : (b : Bytes) (p w : ℕ) → w < 65536 → At b p (word_bytes w) → word b p ≡ w
unfolding word word_bytes
At-word b p w h at =
    let low : At b (p + 1) (w % 256 ∷ []) = At-tail b p (w / 256 % 256) (w % 256 ∷ []) at in
    omega (arith, At-byte b p (w / 256 % 256) (w % 256 ∷ []) at, At-byte b (p + 1) (w % 256) [] low)

pub length-word_bytes : (w : ℕ) → length (word_bytes w) ≡ 2
unfolding word_bytes
length-word_bytes w = refl

pub At-append : (b : Bytes) (p : ℕ) (s t u : Bytes) → At b p (s ++ t ++ u) → At b p (s ++ (t ++ u))
At-append b p s t u (pre, post, e, n) =
    (pre, post, e ∙ ap (λ x. pre ++ (x ++ post)) (append_assoc s t u), n)
