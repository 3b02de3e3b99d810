-- ===== src/Dns/Ecs/Messages.antt =====
-- `StripECS` of internal/dns/ecs_strip.go on a whole query.
use safeswitch_router.Common.{
  ℕ, zero, suc, ◌+◌, ◌-◌, ◌%◌, ◌<◌, ◌≤◌, ◌≡◌, refl, sym, ap, ◌∙◌, List, [], ◌∷◌, ◌++◌, arith, Bytes,
  false, All, length, take, drop, length-append, take_append, drop_append, get_or_append_left,
  append_assoc, Bool-cases, inl, inr,
}
use safeswitch_router.Dns.Packet.{word, word_bytes, put_word}
use safeswitch_router.Dns.Segments.{
  At, At-left, At-right, At-eq, At-bound, At-word, length-word_bytes,
}
use safeswitch_router.Dns.Wire.Names.{wire_name}
use safeswitch_router.Dns.Wire.Queries.{
  Asked, IsAsked, wire_question, wire_questions, length-wire_question,
}
use safeswitch_router.Dns.Ecs.{
  at, skip_name, skip_questions, skip_rrs, strip_opt_option, strip_additional, strip_ecs,
}
use safeswitch_router.Dns.Ecs.Skipping.{skip_name-wire_name}
use safeswitch_router.Dns.Ecs.Options.{
  Opt, IsOpt, wire_option, wire_options, without, holds, strip_opt_option-wire,
}

-- An OPT record: the root name, type 41, six bytes of class and TTL, and the options behind their
-- total length.
abbrev pub opt_head : Bytes → Bytes
opt_head fixed = 0 ∷ word_bytes 41 ++ fixed

abbrev pub opt_body : List Opt → Bytes
opt_body os = word_bytes (length (wire_options os)) ++ wire_options os

-- A query: header, questions, an OPT record, and the records behind it.
abbrev pub edns_query : Bytes → List Asked → Bytes → List Opt → Bytes → Bytes
edns_query hdr as' fixed os post =
    hdr ++ (wire_questions as' ++ (opt_head fixed ++ (opt_body os ++ post)))

skip_questions-wire :
    (as' : List Asked) (b : Bytes) (p : ℕ)
    → All IsAsked as'
    → At b p (wire_questions as')
    → skip_questions (length as') b p ≡ at (p + length (wire_questions as'))
unfolding skip_questions
skip_questions-wire [] b p v here = ap at (omega arith)
skip_questions-wire (a ∷ as') b p v here =
    let types : Bytes = word_bytes a.qtype ++ word_bytes a.class in
    let first : At b p (wire_question a) =
      At-left b p (wire_question a) (wire_questions as') here in
    let next = p + length (wire_name a.labels) + 4 in
    let more : At b next (wire_questions as') =
      At-eq b (p + length (wire_question a)) next (wire_questions as')
        (omega (arith, length-wire_question a))
        (At-right b p (wire_question a) (wire_questions as') here) in
    ground (
      arith,
      skip_name-wire_name a.labels b p v.0.labels_fit
          (At-left b p (wire_name a.labels) types first),
      At-bound b next (wire_questions as') more,
      length-append (wire_question a) (wire_questions as'),
      length-wire_question a,
      skip_questions-wire as' b next v.1 more,
    )

-- Rewriting a word in place.
put_word_append :
    (pre t : Bytes) (v w : ℕ)
    → put_word (pre ++ (word_bytes v ++ t)) (length pre) w ≡ pre ++ (word_bytes w ++ t)
unfolding put_word
put_word_append pre t v w =
    let size : length (pre ++ word_bytes v) ≡ length pre + 2 =
      omega (arith, length-append pre (word_bytes v), length-word_bytes v) in
    let behind : drop (length pre + 2) (pre ++ (word_bytes v ++ t)) ≡ t =
      ap (λ k. drop k (pre ++ (word_bytes v ++ t))) (sym size)
      ∙ ap (drop (length (pre ++ word_bytes v))) (sym (append_assoc pre (word_bytes v) t))
      ∙ drop_append (pre ++ word_bytes v) t in
    rw (take_append pre (word_bytes v ++ t), behind)

-- With no option of the code there is nothing to leave out.
without_absent : (code : ℕ) (os : List Opt) → holds code os ≡ false → without code os ≡ os
without_absent code [] h = refl
without_absent code (o ∷ os) h = ground (arith, without_absent code os)

length-without-le :
    (code : ℕ) (os : List Opt) → length (wire_options (without code os)) ≤ length (wire_options os)
length-without-le code [] = omega arith
length-without-le code (o ∷ os) = ground (
  arith,
  length-append (wire_option o) (wire_options os),
  length-append (wire_option o) (wire_options (without code os)),
  length-without-le code os,
)

strip_additional_opt :
    (count : ℕ) (b : Bytes) (p size : ℕ)
    → 0 < count
    → skip_name b p ≡ at (p + 1)
    → word b (p + 1) ≡ 41
    → word b (p + 9) ≡ size
    → p + 11 + size ≤ length b
    → strip_additional count b p ≡ strip_opt_option b (p + 11) (p + 11 + size) 8
unfolding strip_additional
strip_additional_opt zero b p size pos named typed sized h = absurd (omega arith)
strip_additional_opt (suc n) b p size pos named typed sized h = ground (arith, named, typed, sized)

-- What the header says of a query with no answer and no authority records.
pub record IsQueryHeader (hdr : Bytes) (as' : List Asked) : Type 0 where
  pub twelve : length hdr ≡ 12
  pub questions : word hdr 4 ≡ length as'
  pub no_answers : word hdr 6 ≡ 0
  pub no_authorities : word hdr 8 ≡ 0
  pub additional : 0 < word hdr 10

header_word :
    (hdr rest : Bytes) (i : ℕ) → length hdr ≡ 12 → i < 11 → word (hdr ++ rest) i ≡ word hdr i
unfolding word
header_word hdr rest i size lt = rw (
  get_or_append_left hdr rest i 0 (omega arith),
  get_or_append_left hdr rest (i + 1) 0 (omega arith),
)

module _ (hdr : Bytes) (as' : List Asked) (fixed : Bytes) (os : List Opt) (post : Bytes)
    (v : IsQueryHeader hdr as') (asked : All IsAsked as') (six : length fixed ≡ 6)
    (opts : All IsOpt os) (fits : length (wire_options os) < 65536) where
  -- The message, and where its OPT record and the options in it begin.
  abbrev query : Bytes
  query = edns_query hdr as' fixed os post

  abbrev opt_at : ℕ
  opt_at = 12 + length (wire_questions as')

  abbrev before : Bytes
  before = hdr ++ (wire_questions as' ++ opt_head fixed)

  length-before : length before ≡ opt_at + 9
  length-before = omega (
    arith,
    v.twelve,
    length-append hdr (wire_questions as' ++ opt_head fixed),
    length-append (wire_questions as') (opt_head fixed),
    length-append (word_bytes 41) fixed,
    length-word_bytes 41,
  )

  query_split : query ≡ before ++ (opt_body os ++ post)
  query_split = simp append_assoc

  options_here : At query (opt_at + 11) (wire_options os)
  options_here = (
    before ++ word_bytes (length (wire_options os)),
    post,
    query_split ∙ simp append_assoc,
    omega (
      arith,
      length-append before (word_bytes (length (wire_options os))),
      length-before,
      length-word_bytes (length (wire_options os)),
    ),
  )

  head_here : At query opt_at (opt_head fixed)
  head_here = (
    hdr ++ wire_questions as',
    opt_body os ++ post,
    simp append_assoc,
    omega (arith, v.twelve, length-append hdr (wire_questions as')),
  )

  type_here : At query (opt_at + 1) (word_bytes 41)
  type_here =
      At-left query (opt_at + 1) (word_bytes 41) fixed
        (At-right query opt_at (0 ∷ []) (word_bytes 41 ++ fixed) head_here)

  size_here : At query (opt_at + 9) (word_bytes (length (wire_options os)))
  size_here = (before, wire_options os ++ post, query_split ∙ simp append_assoc, length-before)

  questions_here : At query 12 (wire_questions as')
  questions_here = (hdr, opt_head fixed ++ (opt_body os ++ post), refl, v.twelve)

  header_here : (i : ℕ) → i < 11 → word query i ≡ word hdr i
  header_here i h =
      header_word hdr (wire_questions as' ++ (opt_head fixed ++ (opt_body os ++ post))) i v.twelve h

  additional_here :
      strip_additional (word query 10) query opt_at
      ≡ strip_opt_option query (opt_at + 11) (opt_at + 11 + length (wire_options os)) 8
  additional_here =
      strip_additional_opt (word query 10) query opt_at (length (wire_options os))
        (omega (arith, header_here 10, v.additional))
        (skip_name-wire_name [] query opt_at tt
          (At-left query opt_at (0 ∷ []) (word_bytes 41 ++ fixed) head_here))
        (At-word query (opt_at + 1) 41 (omega arith) type_here)
        (At-word query (opt_at + 9) (length (wire_options os)) fits size_here)
        (At-bound query (opt_at + 11) (wire_options os) options_here)

  walk :
      strip_ecs query
      ≡ strip_opt_option query (opt_at + 11) (opt_at + 11 + length (wire_options os)) 8
  unfolding strip_ecs skip_rrs
  walk =
      let counted : word query 4 ≡ length as' = header_here 4 (omega arith) ∙ v.questions in
      let none6 : word query 6 ≡ 0 = header_here 6 (omega arith) ∙ v.no_answers in
      let none8 : word query 8 ≡ 0 = header_here 8 (omega arith) ∙ v.no_authorities in
      ground (
        arith,
        counted,
        none6,
        none8,
        header_here 10 (omega arith),
        v.additional,
        At-bound query 12 (wire_questions as') questions_here,
        skip_questions-wire as' query 12 asked questions_here,
        additional_here,
      )

  rebuilt :
      put_word
        (take (opt_at + 11) query
          ++ (wire_options (without 8 os) ++ drop (opt_at + 11 + length (wire_options os)) query))
        (opt_at + 11 - 2)
        (length (wire_options (without 8 os)) % 65536)
      ≡ edns_query hdr as' fixed (without 8 os) post
  rebuilt =
      let size0 = length (wire_options os) in
      let size1 = length (wire_options (without 8 os)) in
      let front : Bytes = before ++ word_bytes size0 in
      let width : length front ≡ opt_at + 11 =
        omega (
          arith,
          length-append before (word_bytes size0),
          length-before,
          length-word_bytes size0,
        ) in
      let shape : query ≡ front ++ (wire_options os ++ post) = query_split ∙ simp append_assoc in
      let taken : take (opt_at + 11) query ≡ front =
        ap (λ k. take k query) (sym width)
        ∙ ap (take (length front)) shape
        ∙ take_append front (wire_options os ++ post) in
      let end : length (front ++ wire_options os) ≡ opt_at + 11 + size0 =
        omega (arith, width, length-append front (wire_options os)) in
      let shape' : query ≡ front ++ wire_options os ++ post =
        shape ∙ sym (append_assoc front (wire_options os) post) in
      let dropped : drop (opt_at + 11 + size0) query ≡ post =
        ap (λ k. drop k query) (sym end)
        ∙ ap (drop (length (front ++ wire_options os))) shape'
        ∙ drop_append (front ++ wire_options os) post in
      let place : opt_at + 11 - 2 ≡ length before = omega (arith, length-before) in
      let small : size1 % 65536 ≡ size1 = omega (arith, fits, length-without-le 8 os) in
      let rest : Bytes = wire_options (without 8 os) ++ post in
      ap
        (λ b.
          put_word (b ++ (wire_options (without 8 os) ++ drop (opt_at + 11 + size0) query))
            (opt_at + 11 - 2) (size1 % 65536))
        taken
      ∙ ap
          (λ b.
            put_word (front ++ (wire_options (without 8 os) ++ b)) (opt_at + 11 - 2)
              (size1 % 65536))
          dropped
      ∙ ap (λ k. put_word (front ++ rest) k (size1 % 65536)) place
      ∙ ap (put_word (front ++ rest) (length before)) small
      ∙ ap (λ b. put_word b (length before) size1) (append_assoc before (word_bytes size0) rest)
      ∙ put_word_append before rest size0 size1
      ∙ simp append_assoc

  -- Of a query whose first additional record is OPT the function returns the same query without
  -- the client-subnet options (code 8): questions, the other options in their order and all behind
  -- the record are as they were, and the record's length is that of the options left. The flag says
  -- whether there was such an option.
  pub strip_ecs-edns_query :
      strip_ecs (edns_query hdr as' fixed os post)
      ≡ (edns_query hdr as' fixed (without 8 os) post, holds 8 os)
  strip_ecs-edns_query =
      walk
      ∙ strip_opt_option-wire os query (opt_at + 11) 8 opts options_here
      ∙ elim (Bool-cases (holds 8 os)) [
        | inl hit ↦ rw (hit, rebuilt)
        | inr miss ↦ rw (miss, without_absent 8 os miss)
      ]
