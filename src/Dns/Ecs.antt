-- ===== src/Dns/Ecs.antt =====
-- internal/dns/ecs_strip.go: the client-subnet option is cut out of an outgoing query. The offsets
-- only grow, so the loops take fuel that is always enough: at fuel 0 they stand where the source's
-- loop condition has failed.
pub mod Skipping
pub mod Options
pub mod Messages
use safeswitch_router.Common.{
  ℕ, zero, suc, ◌+◌, ◌-◌, ◌%◌, Bool, true, false, not, ◌||◌, Option, none, some, List, [], ◌∷◌,
  ◌++◌, bit_and, Bytes, length, take, drop, ltb, leb, ◌==◌, if◌then◌else◌,
}
use safeswitch_router.Dns.Packet.{byte_at, slice, word, put_word}

-- `ecsErr`
pub data SkipError : Type 0 where
  truncated bad_label : SkipError

-- An offset, or Go's error.
pub data Result : Type 0 where
  at : ℕ → Result
  err : SkipError → Result

infixl 5 ◌>>=◌
abbrev pub ◌>>=◌ : Result → (ℕ → Result) → Result
at n >>= f = f n
err e >>= f = err e

unfoldable pub skip_name_loop : ℕ → Bytes → ℕ → Result
skip_name_loop zero msg offset = err truncated
skip_name_loop (suc fuel) msg offset =
    let l = byte_at msg offset in
    let rest = skip_name_loop fuel msg (offset + (1 + l)) in
    if leb (length msg) offset
    then err truncated
    else if l == 0
    then at (offset + 1)
    else if bit_and l 0xC0 == 0xC0
    then (if ltb (length msg) (offset + 2) then err truncated else at (offset + 2))
    else if not (bit_and l 0xC0 == 0)
    then err bad_label
    else rest

unfoldable pub skip_name : Bytes → ℕ → Result
skip_name msg offset = skip_name_loop (length msg - offset) msg offset

unfoldable pub skip_rr : Bytes → ℕ → Result
skip_rr msg offset = skip_name msg offset >>= λ end.
    let next = end + 10 + word msg (end + 8) in
    if ltb (length msg) (end + 10)
    then err truncated
    else if ltb (length msg) next
    then err truncated
    else at next

-- The question section.
unfoldable pub skip_questions : ℕ → Bytes → ℕ → Result
skip_questions zero msg offset = at offset
skip_questions (suc n) msg offset = skip_name msg offset >>= λ name_end.
    let rest = skip_questions n msg (name_end + 4) in
    if ltb (length msg) (name_end + 4) then err truncated else rest

-- The answer and authority sections.
unfoldable pub skip_rrs : ℕ → Bytes → ℕ → Result
skip_rrs zero msg offset = at offset
skip_rrs (suc n) msg offset = skip_rr msg offset >>= λ next. skip_rrs n msg next

-- The ranges of bytes to keep, and whether an option was dropped; `none` on a malformed option.
unfoldable pub scan_options :
    ℕ → Bytes → ℕ → ℕ → ℕ → List (ℕ × ℕ) → Bool → Option (List (ℕ × ℕ) × Bool)
scan_options zero msg pos rd_end opt_code ranges stripped = some (ranges, stripped)
scan_options (suc fuel) msg pos rd_end opt_code ranges stripped =
    let next = pos + 4 + word msg (pos + 2) in
    let hit = word msg pos == opt_code in
    let rest =
      scan_options fuel msg next rd_end opt_code
        (if hit then ranges else ranges ++ (pos, next) ∷ []) (if hit then true else stripped) in
    if leb rd_end pos
    then some (ranges, stripped)
    else if ltb rd_end (pos + 4)
    then none
    else if ltb rd_end next
    then none
    else rest

unfoldable pub kept_len : List (ℕ × ℕ) → ℕ
kept_len [] = 0
kept_len ((from, to) ∷ ranges) = (to - from) + kept_len ranges

unfoldable pub kept_bytes : Bytes → List (ℕ × ℕ) → Bytes
kept_bytes msg [] = []
kept_bytes msg ((from, to) ∷ ranges) = slice msg from to ++ kept_bytes msg ranges

-- The message around the kept options, with RDLENGTH rewritten.
unfoldable pub rebuild : Bytes → ℕ → ℕ → List (ℕ × ℕ) → Bytes
rebuild msg rd_start rd_end ranges =
    put_word (take rd_start msg ++ (kept_bytes msg ranges ++ drop rd_end msg)) (rd_start - 2)
      (kept_len ranges % 65536)

unfoldable pub strip_opt_option : Bytes → ℕ → ℕ → ℕ → Bytes × Bool
strip_opt_option msg rd_start rd_end opt_code =
    elim (scan_options (rd_end - rd_start) msg rd_start rd_end opt_code [] false) [
      | none ↦ (msg, false)
      | some (ranges, stripped) ↦
          if stripped then (rebuild msg rd_start rd_end ranges, true) else (msg, false)
    ]

-- The walk over the additional section, up to the first OPT record.
unfoldable pub strip_additional : ℕ → Bytes → ℕ → Bytes × Bool
strip_additional zero msg offset = (msg, false)
strip_additional (suc n) msg offset = elim (skip_name msg offset) [
  | err e ↦ (msg, false)
  | at name_end ↦
      let rd_start = name_end + 10 in
      let rd_end = rd_start + word msg (name_end + 8) in
      let rest = strip_additional n msg rd_end in
      if ltb (length msg) (name_end + 10)
      then (msg, false)
      else if ltb (length msg) rd_end
      then (msg, false)
      else if word msg name_end == 41
      then strip_opt_option msg rd_start rd_end 8
      else rest
]

-- `anCount+nsCount` is a `uint16` in the source, and wraps.
unfoldable pub strip_ecs : Bytes → Bytes × Bool
strip_ecs msg =
    if ltb (length msg) 12
    then (msg, false)
    else if word msg 10 == 0
    then (msg, false)
    else elim (skip_questions (word msg 4) msg 12 >>= λ offset.
        skip_rrs ((word msg 6 + word msg 8) % 65536) msg offset) [
          | err e ↦ (msg, false)
          | at offset ↦ strip_additional (word msg 10) msg offset
        ]
