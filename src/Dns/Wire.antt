-- ===== src/Dns/Wire.antt =====
-- internal/dns/wire.go. `parse_query` and the three builders of answers. `read_name` follows
-- compression pointers with no bound in the source, so it takes fuel here, one unit for each round
-- of its loop; `stuck` is no Go value and says that the fuel ran out.
pub mod Names
pub mod Endings
pub mod Queries
pub mod Encoding
pub mod Responses
pub mod Sinkhole
use safeswitch_router.Common.{
  ℕ, zero, suc, ◌+◌, ◌-◌, ◌*◌, ◌%◌, List, [], ◌∷◌, ◌++◌, bit_and, bit_or, Bytes, bytes, length,
  take, ltb, leb, ◌==◌, if◌then◌else◌,
}
use safeswitch_router.Common.Text.{join, split}
use safeswitch_router.Dns.Packet.{byte_at, slice, word, put_word}

-- `errShort`, the only error of this file.
pub data Result {ℓ} (A : Type ℓ) : Type ℓ where
  ok : A → Result A
  short : Result A
  stuck : Result A

infixl 5 ◌>>=◌
abbrev pub ◌>>=◌ {ℓ κ} : {A : Type ℓ} {B : Type κ} → Result A → (A → Result B) → Result B
ok a >>= f = f a
short >>= f = short
stuck >>= f = stuck

pub record Question : Type 0 where
  pub name : Bytes
  pub qtype : ℕ
  pub class : ℕ

pub record Msg : Type 0 where
  pub id : ℕ
  pub flags : ℕ
  pub qd_count : ℕ
  pub questions : List Question
  pub body : Bytes

-- What the loop has consumed when it stops behind `offset`.
abbrev pub consumed : ℕ → ℕ → ℕ → ℕ
consumed start offset visited = if ltb 0 visited then visited else offset - start

-- `visited` is 0 until the first pointer, and then the bytes up to behind that pointer.
abbrev pub visit : ℕ → ℕ → ℕ → ℕ
visit start offset visited = if visited == 0 then offset - start else visited

-- `int(binary.BigEndian.Uint16([]byte{b[offset] & 0x3F, b[offset+1]}))`
abbrev pub pointer : Bytes → ℕ → ℕ
pointer b offset = bit_and (byte_at b offset) 0x3F * 256 + byte_at b (offset + 1)

unfoldable pub read_name_loop : ℕ → Bytes → ℕ → ℕ → ℕ → List Bytes → Result (Bytes × ℕ)
read_name_loop zero b start offset visited labels = stuck
read_name_loop (suc fuel) b start offset visited labels =
    let size = byte_at b offset in
    let jump =
      read_name_loop fuel b start (pointer b offset) (visit start (offset + 2) visited) labels in
    let label =
      read_name_loop fuel b start (offset + 1 + size) visited
        (labels ++ slice b (offset + 1) (offset + 1 + size) ∷ []) in
    if leb (length b) offset
    then short
    else if size == 0
    then ok (join (bytes ".") labels, consumed start (offset + 1) visited)
    else if bit_and size 0xC0 == 0xC0
    then (if leb (length b) (offset + 1) then short else jump)
    else if ltb (length b) (offset + 1 + size)
    then short
    else label

unfoldable pub read_name : ℕ → Bytes → ℕ → Result (Bytes × ℕ)
read_name fuel b offset = read_name_loop fuel b offset offset 0 []

unfoldable pub parse_questions : ℕ → ℕ → Bytes → ℕ → List Question → Result (List Question)
parse_questions fuel zero b offset done = ok done
parse_questions fuel (suc count) b offset done = read_name fuel b offset >>= λ (name, n).
    let next = offset + n in
    let rest =
      parse_questions fuel count b (next + 4)
        (done ++ record { name = name; qtype = word b next; class = word b (next + 2) } ∷ []) in
    if ltb (length b) (next + 4) then short else rest

unfoldable pub parse_query : ℕ → Bytes → Result Msg
parse_query fuel b =
    if ltb (length b) 12
    then short
    else (parse_questions fuel (word b 4) b 12 [] >>= λ questions. ok (record {
      id = word b 0;
      flags = word b 2;
      qd_count = word b 4;
      questions = questions;
      body = b;
    }))

-- `nil` is the empty answer.
unfoldable pub build_nxdomain : Bytes → Bytes
unfolding word put_word
build_nxdomain query =
    let flags = bit_or (bit_or (bit_or (word query 2) 0x8000) 0x0080) 0x0003 in
    if ltb (length query) 12
    then []
    else put_word (put_word (put_word (put_word query 2 flags) 6 0) 8 0) 10 0

unfoldable pub build_servfail : Bytes → Bytes
unfolding word put_word
build_servfail query =
    let flags = bit_or (bit_and (bit_or (word query 2) 0x8000) 0xFFF0) 0x0002 in
    if ltb (length query) 12
    then []
    else take 4 (put_word (take 12 query) 2 flags) ++ (0 ∷ 0 ∷ 0 ∷ 0 ∷ 0 ∷ 0 ∷ 0 ∷ 0 ∷ [])

-- The name written out label by label; empty labels are skipped.
unfoldable pub encode_labels : List Bytes → Bytes
encode_labels [] = []
encode_labels (label ∷ ls) =
    if length label == 0 then encode_labels ls else length label % 256 ∷ label ++ encode_labels ls

unfoldable pub encode_name : Bytes → Bytes
unfolding encode_labels split
encode_name name = encode_labels (split b'.' name)

-- The header of the answer: the query's first twelve bytes with flags and counts rewritten.
unfoldable pub sinkhole_header : Bytes → Bytes
unfolding word put_word
sinkhole_header query =
    let flags = bit_and (bit_or (bit_or (word query 2) 0x8000) 0x0080) 0xFFF0 in
    let hdr = put_word (put_word (take 12 query) 2 flags) 4 1 in
    put_word (put_word (put_word hdr 6 1) 8 0) 10 0

-- Class IN, type A, name by a pointer to offset 12, a time to live of 5 seconds, four bytes of data.
unfoldable pub sinkhole_answer : Bytes → Bytes
sinkhole_answer ip = 0xC0 ∷ 0x0C ∷ 0 ∷ 1 ∷ 0 ∷ 1 ∷ 0 ∷ 0 ∷ 0 ∷ 5 ∷ 0 ∷ 4 ∷ take 4 ip

unfoldable pub sinkhole_reply : Bytes → Bytes → Question → Bytes
sinkhole_reply query ip q =
    sinkhole_header query ++ (encode_name q.name ++ (0 ∷ 0 ∷ 1 ∷ 0 ∷ 1 ∷ sinkhole_answer ip))

abbrev pub first_question : Bytes → Bytes → List Question → Bytes
first_question query ip [] = build_nxdomain query
first_question query ip (q ∷ qs) = sinkhole_reply query ip q

-- Every answer of the parser but a hang gives bytes.
unfoldable pub build_sinkhole_a : ℕ → Bytes → Bytes → Result Bytes
build_sinkhole_a fuel query ip =
    if ltb (length query) 12 then ok (build_nxdomain query) else elim (parse_query fuel query) [
      | ok m ↦ ok (first_question query ip m.questions)
      | short ↦ ok (build_nxdomain query)
      | stuck ↦ stuck
    ]
