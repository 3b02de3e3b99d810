-- ===== src/Dns/Ecs/Options.antt =====
-- `stripOPTOption` of internal/dns/ecs_strip.go against a list of options.
use safeswitch_router.Common.{
  ℕ, zero, suc, ◌+◌, ◌-◌, ◌%◌, ◌<◌, ◌≤◌, ◌≡◌, refl, ◌∙◌, List, [], ◌∷◌, ◌++◌, arith, Bytes, Bool,
  true, false, some, All, length, take, drop, length-append, append_assoc, append-nil, ◌==◌,
  if◌then◌else◌, leb, ltb, Bool-cases, inl, inr,
}
use safeswitch_router.Dns.Packet.{word, word_bytes, put_word}
use safeswitch_router.Dns.Segments.{
  At, At-left, At-right, At-eq, At-word, At-slice, length-word_bytes,
}
use safeswitch_router.Dns.Ecs.{scan_options, kept_len, kept_bytes, rebuild, strip_opt_option}

-- An EDNS option.
pub record Opt : Type 0 where
  pub code : ℕ
  pub value : Bytes

pub record IsOpt (o : Opt) : Type 0 where
  pub code_fits : o.code < 65536
  pub value_fits : length o.value < 65536

abbrev pub wire_option : Opt → Bytes
wire_option o = word_bytes o.code ++ (word_bytes (length o.value) ++ o.value)

abbrev pub wire_options : List Opt → Bytes
wire_options [] = []
wire_options (o ∷ os) = wire_option o ++ wire_options os

-- The options with another code, in their order, and whether one has the code.
abbrev pub without : ℕ → List Opt → List Opt
without code [] = []
without code (o ∷ os) = if o.code == code then without code os else o ∷ without code os

abbrev pub holds : ℕ → List Opt → Bool
holds code [] = false
holds code (o ∷ os) = if o.code == code then true else holds code os

-- The ranges that the scan keeps, where the options begin at `p`.
abbrev ranges_from : ℕ → ℕ → List Opt → List (ℕ × ℕ)
ranges_from code p [] = []
ranges_from code p (o ∷ os) =
    let next = p + 4 + length o.value in
    if o.code == code then ranges_from code next os else (p, next) ∷ ranges_from code next os

pub length-wire_option : (o : Opt) → length (wire_option o) ≡ 4 + length o.value
length-wire_option o = omega (
  arith,
  length-append (word_bytes o.code) (word_bytes (length o.value) ++ o.value),
  length-append (word_bytes (length o.value)) o.value,
  length-word_bytes o.code,
  length-word_bytes (length o.value),
)

-- The three tests of a round pass.
scan_passes :
    {A : Type 0} (p rd_end n : ℕ) (x y z w : A)
    → p + 4 + n ≤ rd_end
    → (if leb rd_end p
        then x
        else if ltb rd_end (p + 4)
        then y
        else if ltb rd_end (p + 4 + n)
        then z
        else w)
      ≡ w
scan_passes p rd_end n x y z w h = ground arith

module _ (b : Bytes) where
  code-At : (p : ℕ) (o : Opt) → IsOpt o → At b p (wire_option o) → word b p ≡ o.code
  code-At p o v here =
      At-word b p o.code v.code_fits
        (At-left b p (word_bytes o.code) (word_bytes (length o.value) ++ o.value) here)

  size-At : (p : ℕ) (o : Opt) → IsOpt o → At b p (wire_option o) → word b (p + 2) ≡ length o.value
  size-At p o v here = At-word b (p + 2) (length o.value) v.value_fits (
      At-left b (p + 2) (word_bytes (length o.value)) o.value (
        At-eq b (p + length (word_bytes o.code)) (p + 2) (word_bytes (length o.value) ++ o.value)
          (omega (arith, length-word_bytes o.code))
          (At-right b p (word_bytes o.code) (word_bytes (length o.value) ++ o.value) here)))

  next-At :
      (p : ℕ) (o : Opt) (os : List Opt)
      → At b p (wire_options (o ∷ os))
      → At b (p + 4 + length o.value) (wire_options os)
  next-At p o os here =
      At-eq b (p + length (wire_option o)) (p + 4 + length o.value) (wire_options os)
        (omega (arith, length-wire_option o)) (At-right b p (wire_option o) (wire_options os) here)

  -- One round on an option that lies within the record.
  scan_round :
      (fuel p rd_end code c n : ℕ) (ranges : List (ℕ × ℕ)) (stripped : Bool)
      → word b p ≡ c
      → word b (p + 2) ≡ n
      → p + 4 + n ≤ rd_end
      → scan_options (suc fuel) b p rd_end code ranges stripped
        ≡ scan_options fuel b
            (p + 4 + n)
            rd_end
            code
            (if c == code then ranges else ranges ++ (p, p + 4 + n) ∷ [])
            (if c == code then true else stripped)
  unfolding scan_options
  scan_round fuel p rd_end code c n ranges stripped ec en h =
      rw (← ec, ← en) (scan_passes p rd_end (word b (p + 2)) _ _ _ _ (omega arith))

  scan_options-wire :
      (os : List Opt) (fuel p code rd_end : ℕ) (ranges : List (ℕ × ℕ)) (stripped : Bool)
      → All IsOpt os
      → At b p (wire_options os)
      → length (wire_options os) ≤ fuel
      → rd_end ≡ p + length (wire_options os)
      → scan_options fuel b p rd_end code ranges stripped
        ≡ some (ranges ++ ranges_from code p os, if stripped then true else holds code os)
  scan_options-wire [] zero p code rd_end ranges stripped v here h e =
      unfold scan_options in ground (arith, append-nil ranges)
  scan_options-wire [] (suc fuel) p code rd_end ranges stripped v here h e =
      unfold scan_options in ground (arith, append-nil ranges)
  scan_options-wire (o ∷ os) zero p code rd_end ranges stripped v here h e =
      absurd (omega (arith, length-append (wire_option o) (wire_options os), length-wire_option o))
  scan_options-wire (o ∷ os) (suc fuel) p code rd_end ranges stripped v here h e =
      let next = p + 4 + length o.value in
      let first : At b p (wire_option o) = At-left b p (wire_option o) (wire_options os) here in
      let size : length (wire_options (o ∷ os)) ≡ 4 + length o.value + length (wire_options os) =
        omega (arith, length-append (wire_option o) (wire_options os), length-wire_option o) in
      let ih = scan_options-wire os fuel next code rd_end in
      let more = next-At p o os here in
      let round =
        scan_round fuel p rd_end code o.code (length o.value) ranges stripped
          (code-At p o v.0 first) (size-At p o v.0 first) (omega arith) in
      elim (Bool-cases (o.code == code)) [
        | inl hit ↦
            rw hit
              (rw hit at round ∙ ih ranges true v.1 more (omega arith) (omega arith) ∙ ground arith)
        | inr miss ↦ rw miss (
            rw miss at round
            ∙ ih (ranges ++ (p, next) ∷ []) stripped v.1 more (omega arith) (omega arith)
            ∙ ground (arith, append_assoc ranges ((p, next) ∷ []) (ranges_from code next os)))
      ]

  kept_bytes-ranges :
      (os : List Opt) (p code : ℕ)
      → At b p (wire_options os)
      → kept_bytes b (ranges_from code p os) ≡ wire_options (without code os)
  unfolding kept_bytes
  kept_bytes-ranges [] p code here = refl
  kept_bytes-ranges (o ∷ os) p code here = ground (
    arith,
    At-slice b p (wire_option o) (At-left b p (wire_option o) (wire_options os) here),
    length-wire_option o,
    kept_bytes-ranges os (p + 4 + length o.value) code (next-At p o os here),
  )

  kept_len-ranges :
      (os : List Opt) (p code : ℕ)
      → kept_len (ranges_from code p os) ≡ length (wire_options (without code os))
  unfolding kept_len
  kept_len-ranges [] p code = refl
  kept_len-ranges (o ∷ os) p code = ground (
    arith,
    length-append (wire_option o) (wire_options (without code os)),
    length-wire_option o,
    kept_len-ranges os (p + 4 + length o.value) code,
  )

-- Cutting the options `os` that stand at `p` leaves the others, in their order, between the same
-- bytes; the message is as it was if none has the code.
pub strip_opt_option-wire :
    (os : List Opt) (b : Bytes) (p code : ℕ)
    → All IsOpt os
    → At b p (wire_options os)
    → strip_opt_option b p (p + length (wire_options os)) code ≡ (
        if holds code os
        then (
          put_word
              (take p b
                ++ (wire_options (without code os) ++ drop (p + length (wire_options os)) b))
              (p - 2)
              (length (wire_options (without code os)) % 65536),
          true,
        )
        else (b, false))
unfolding strip_opt_option rebuild
strip_opt_option-wire os b p code v here =
    let end = p + length (wire_options os) in
    let scan = scan_options-wire b os (end - p) p code end [] false v here (omega arith) refl in
    ground (arith, scan, kept_bytes-ranges b os p code here, kept_len-ranges b os p code)
