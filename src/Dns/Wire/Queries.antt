-- ===== src/Dns/Wire/Queries.antt =====
-- What `parseQuery` of internal/dns/wire.go returns.
use safeswitch_router.Common.{
  ℕ, zero, suc, ◌+◌, ◌*◌, ◌<◌, ◌≤◌, ◌≡◌, ◌≢◌, refl, List, [], ◌∷◌, ◌++◌, map, arith, Bytes, bytes,
  All, length, length-append, append_assoc, append-nil, ◌⊎◌, inl, inr,
}
use safeswitch_router.Common.Text.{join}
use safeswitch_router.Dns.Packet.{word, word_bytes}
use safeswitch_router.Dns.Segments.{
  At, At-left, At-right, At-eq, At-bound, At-word, length-word_bytes,
}
use safeswitch_router.Dns.Wire.{
  Result, ok, short, stuck, Question, Msg, read_name, parse_questions, parse_query,
}
use safeswitch_router.Dns.Wire.Names.{
  IsLabel, wire_labels, wire_name, wire_pointer, read_name-wire_name, read_name-bound,
}
use safeswitch_router.Dns.Wire.Endings.{NoPointers, read_name-cycle, read_name-ne-stuck}

-- The three cases of a result.
Result-cases {ℓ} :
    {A : Type ℓ} (r : Result A) → ((a : A) × (r ≡ ok a)) ⊎ ((r ≡ short) ⊎ (r ≡ stuck))
Result-cases (ok a) = inl (a, refl)
Result-cases short = inr (inl refl)
Result-cases stuck = inr (inr refl)

parse_questions-bound :
    (fuel count : ℕ) (b : Bytes) (p : ℕ) (done qs : List Question)
    → p ≤ length b
    → parse_questions fuel count b p done ≡ ok qs
    → (length qs ≡ length done + count) × (p + 5 * count ≤ length b)
unfolding parse_questions
parse_questions-bound fuel zero b p done qs h e = ground arith
parse_questions-bound fuel (suc count) b p done qs h e = elim (Result-cases (read_name fuel b p)) [
  | inl ((name, n), r) ↦ ground (
    arith,
    r,
    read_name-bound fuel b p name n r,
    length-append done
        (record { name = name; qtype = word b (p + n); class = word b (p + n + 2) } ∷ []),
    parse_questions-bound fuel count b (p + n + 4)
        (done ++ record { name = name; qtype = word b (p + n); class = word b (p + n + 2) } ∷ [])
        qs,
  )
  | inr (inl r) ↦ cc (rw r at e)
  | inr (inr r) ↦ cc (rw r at e)
]

-- A parsed message has as many questions as its header says, each taking five bytes at least, so
-- a count that the message has no room for is refused.
pub parse_query-counts :
    (fuel : ℕ) (b : Bytes) (m : Msg)
    → parse_query fuel b ≡ ok m
    → (length m.questions ≡ m.qd_count) × (12 + 5 * m.qd_count ≤ length b) × (m.body ≡ b)
unfolding parse_query
parse_query-counts fuel b m e =
    ground (arith, parse_questions-bound fuel (word b 4) b 12 [] m.questions)

-- A question as a resolver writes it, and as the parser is to return it.
pub record Asked : Type 0 where
  pub labels : List Bytes
  pub qtype : ℕ
  pub class : ℕ

pub record IsAsked (a : Asked) : Type 0 where
  pub labels_fit : All IsLabel a.labels
  pub qtype_fits : a.qtype < 65536
  pub class_fits : a.class < 65536

abbrev pub wire_question : Asked → Bytes
wire_question a = wire_name a.labels ++ (word_bytes a.qtype ++ word_bytes a.class)

abbrev pub wire_questions : List Asked → Bytes
wire_questions [] = []
wire_questions (a ∷ as') = wire_question a ++ wire_questions as'

abbrev pub read_question : Asked → Question
read_question a = record { name = join (bytes ".") a.labels; qtype = a.qtype; class = a.class }

pub length-wire_question : (a : Asked) → length (wire_question a) ≡ length (wire_name a.labels) + 4
length-wire_question a = omega (
  arith,
  length-append (wire_name a.labels) (word_bytes a.qtype ++ word_bytes a.class),
  length-append (word_bytes a.qtype) (word_bytes a.class),
  length-word_bytes a.qtype,
  length-word_bytes a.class,
)

-- One unit of fuel for each label of the longest name, and one more.
abbrev pub Enough : ℕ → List Asked → Type 0
Enough fuel [] = Unit {0}
Enough fuel (a ∷ as') = (length a.labels < fuel) × Enough fuel as'

parse_questions-wire :
    (as' : List Asked) (fuel : ℕ) (b : Bytes) (p : ℕ) (done : List Question)
    → All IsAsked as'
    → Enough fuel as'
    → At b p (wire_questions as')
    → parse_questions fuel (length as') b p done ≡ ok (done ++ map read_question as')
unfolding parse_questions
parse_questions-wire [] fuel b p done v h at = rw (append-nil done)
parse_questions-wire (a ∷ as') fuel b p done v h at =
    let name = wire_name a.labels in
    let types : Bytes = word_bytes a.qtype ++ word_bytes a.class in
    let q = p + length name in
    let here : At b p (wire_question a) = At-left b p (wire_question a) (wire_questions as') at in
    let behind : At b q types = At-right b p name types here in
    let type_at : At b q (word_bytes a.qtype) =
      At-left b q (word_bytes a.qtype) (word_bytes a.class) behind in
    let class_at : At b (q + 2) (word_bytes a.class) =
      At-eq b (q + length (word_bytes a.qtype)) (q + 2) (word_bytes a.class)
        (omega (arith, length-word_bytes a.qtype))
        (At-right b q (word_bytes a.qtype) (word_bytes a.class) behind) in
    let more : At b (q + 4) (wire_questions as') =
      At-eq b (p + length (wire_question a)) (q + 4) (wire_questions as')
        (omega (arith, length-wire_question a))
        (At-right b p (wire_question a) (wire_questions as') at) in
    ground (
      arith,
      read_name-wire_name a.labels fuel b p v.0.labels_fit (At-left b p name types here) h.0,
      At-bound b (q + 4) (wire_questions as') more,
      At-word b q a.qtype v.0.qtype_fits type_at,
      At-word b (q + 2) a.class v.0.class_fits class_at,
      parse_questions-wire as' fuel b (q + 4) (done ++ read_question a ∷ []) v.1 h.1 more,
      append_assoc done (read_question a ∷ []) (map read_question as'),
    )

-- A message with room for its header, whose second half counts the questions written behind it,
-- is parsed into exactly those questions, with the words of the header read off.
pub parse_query-wire :
    (as' : List Asked) (fuel : ℕ) (b : Bytes)
    → All IsAsked as'
    → Enough fuel as'
    → word b 4 ≡ length as'
    → At b 12 (wire_questions as')
    → parse_query fuel b
      ≡ ok (record {
        id = word b 0;
        flags = word b 2;
        qd_count = length as';
        questions = map read_question as';
        body = b;
      })
unfolding parse_query
parse_query-wire as' fuel b v h count at =
    ground
      (arith, At-bound b 12 (wire_questions as') at, parse_questions-wire as' fuel b 12 [] v h at)

parse_questions-stuck :
    (fuel count : ℕ) (b : Bytes) (p : ℕ) (done : List Question)
    → 0 < count
    → read_name fuel b p ≡ stuck
    → parse_questions fuel count b p done ≡ stuck
unfolding parse_questions
parse_questions-stuck fuel zero b p done h e = absurd (omega arith)
parse_questions-stuck fuel (suc count) b p done h e = rw e

-- A query whose first name ends in a pointer to its own first byte hangs the parser.
pub parse_query-cycle :
    (ls : List Bytes) (fuel : ℕ) (b : Bytes)
    → All IsLabel ls
    → 0 < word b 4
    → At b 12 (wire_labels ls ++ wire_pointer 12)
    → parse_query fuel b ≡ stuck
unfolding parse_query
parse_query-cycle ls fuel b v h at = ground (
  arith,
  parse_questions-stuck fuel (word b 4) b 12 [] h (read_name-cycle ls b 12 v (omega arith) at fuel),
  At-bound b 12 (wire_labels ls ++ wire_pointer 12) at,
)

parse_questions-ne-stuck :
    (fuel count : ℕ) (b : Bytes) (p : ℕ) (done : List Question)
    → NoPointers b p
    → 0 < fuel
    → length b < p + fuel
    → parse_questions fuel count b p done ≢ stuck
unfolding parse_questions
parse_questions-ne-stuck fuel zero b p done free pos h = λ e. cc
parse_questions-ne-stuck fuel (suc count) b p done free pos h =
    elim (Result-cases (read_name fuel b p)) [
      | inl ((name, n), r) ↦ ground (
        arith,
        r,
        parse_questions-ne-stuck fuel count b (p + n + 4)
            (done
              ++ record { name = name; qtype = word b (p + n); class = word b (p + n + 2) } ∷ [])
            (λ i q. free i (omega arith)),
      )
      | inr (inl r) ↦ rw r (λ e. cc)
      | inr (inr r) ↦ absurd (read_name-ne-stuck fuel b p free pos h r)
    ]

-- With no pointer behind the header the parser ends.
pub parse_query-ne-stuck :
    (fuel : ℕ) (b : Bytes)
    → NoPointers b 12
    → 0 < fuel
    → length b < 12 + fuel
    → parse_query fuel b ≢ stuck
unfolding parse_query
parse_query-ne-stuck fuel b free pos h =
    ground (arith, parse_questions-ne-stuck fuel (word b 4) b 12 [] free)
