-- ===== src/Common/Text.antt =====
-- The functions of Go's `strings` package that the program calls, on byte strings.
use safeswitch_router.Common.Logic.{◌==◌, if◌then◌else◌, leb, ltb}
use safeswitch_router.Common.Lists.{length, take, drop}
use safeswitch_router.Common.Slices.{Bytes, same}
use Prim.Native.Nat.{ℕ, suc, ◌+◌, ◌-◌}
use mathlib.Core.Bool.{Bool, true, false, ◌&&◌}
use mathlib.Core.Option.{Option, none, some}
use mathlib.Core.List.{List, [], ◌∷◌, ◌++◌, map}

-- `strings.ToLower`: bytes alone if the text is ASCII. Any other text goes through Unicode's
-- tables, which are the parameter `unicode_lower`.
unfoldable pub lower_byte : ℕ → ℕ
lower_byte c = if leb b'A' c && leb c b'Z' then c + 32 else c

unfoldable pub is_ascii : Bytes → Bool
is_ascii [] = true
is_ascii (c ∷ s) = ltb c 128 && is_ascii s

unfoldable pub to_lower : (Bytes → Bytes) → Bytes → Bytes
unfolding lower_byte is_ascii
to_lower unicode_lower s = if is_ascii s then map lower_byte s else unicode_lower s

-- `strings.HasPrefix(s, p)`
unfoldable pub has_prefix : Bytes → Bytes → Bool
has_prefix s [] = true
has_prefix [] (p ∷ ps) = false
has_prefix (c ∷ s) (p ∷ ps) = c == p && has_prefix s ps

-- `strings.HasSuffix(s, t)`: `len(s) >= len(t) && s[len(s)-len(t):] == t`
unfoldable pub has_suffix : Bytes → Bytes → Bool
has_suffix s t = leb (length t) (length s) && same (drop (length s - length t) s) t

-- `strings.TrimSuffix(s, t)`
unfoldable pub trim_suffix : Bytes → Bytes → Bytes
unfolding has_suffix
trim_suffix s t = if has_suffix s t then take (length s - length t) s else s

-- `strings.Index(s, c)` for a text `c` of one byte; `none` is -1.
unfoldable pub index : ℕ → Bytes → Option ℕ
index c [] = none
index c (b ∷ s) =
    if b == c then some 0 else elim (index c s) [ none ↦ none | some i ↦ some (suc i) ]

-- `strings.Join(parts, sep)`
unfoldable pub join : Bytes → List Bytes → Bytes
join sep [] = []
join sep (p ∷ ps) = elim ps [ [] ↦ p | q ∷ qs ↦ p ++ (sep ++ join sep ps) ]

-- `strings.Split(s, c)` for a text `c` of one byte, the part before the first separator in hand.
unfoldable pub split_from : ℕ → Bytes → Bytes → List Bytes
split_from c part [] = part ∷ []
split_from c part (b ∷ s) =
    if b == c then part ∷ split_from c [] s else split_from c (part ++ b ∷ []) s

unfoldable pub split : ℕ → Bytes → List Bytes
unfolding split_from
split c s = split_from c [] s
