-- ===== src/Commands/Payloads.antt =====
-- The payload helpers of internal/commands/handlers.go.
use safeswitch_router.Common.{
  ℕ, Bool, false, Option, none, some, List, [], ◌∷◌, ◌++◌, Bytes, bytes, length, ◌==◌,
  if◌then◌else◌,
}
use safeswitch_router.Common.Json.{
  Value, flag, text, array, Items, no_items, item, Fields, field_of,
}

-- A value, or an error's text.
pub data Fallible (A : Type 0) : Type 0 where
  fine : A → Fallible A
  failure : Bytes → Fallible A

-- `s, ok := v.(string)`
abbrev pub as_string : Value → Option Bytes
as_string (text s) = some s
as_string _ = none

-- `quote` is Go's `%q`.
unfoldable pub require_string : (Bytes → Bytes) → Fields → Bytes → Fallible Bytes
require_string quote payload key = elim (field_of key payload) [
  | none ↦ failure (bytes "missing required field " ++ quote key)
  | some v ↦ elim (as_string v) [
    | none ↦ failure (bytes "field " ++ (quote key ++ bytes " must be a string"))
    | some s ↦
        if length s == 0
        then failure (bytes "field " ++ (quote key ++ bytes " cannot be empty"))
        else fine s
  ]
]

-- `s, _ := v.(string)`
abbrev pub as_text : Option Value → Bytes
as_text (some (text s)) = s
as_text _ = []

unfoldable pub string_val : Fields → Bytes → Bytes
string_val m key = as_text (field_of key m)

abbrev pub as_flag : Option Value → Bool
as_flag (some (flag b)) = b
as_flag _ = false

unfoldable pub bool_val : Fields → Bytes → Bool
bool_val m key = as_flag (field_of key m)

-- `v.([]any)`, with no items for any other value.
abbrev pub as_items : Option Value → Items
as_items (some (array items)) = items
as_items _ = no_items

-- The texts of the items that are one, without the empty ones.
unfoldable pub texts_of : Items → List Bytes
texts_of no_items = []
texts_of (item v items) =
    let s = as_text (some v) in if length s == 0 then texts_of items else s ∷ texts_of items

unfoldable pub string_slice_val : Fields → Bytes → List Bytes
string_slice_val m key = texts_of (as_items (field_of key m))

-- With and without sub-second precision; `parse` is Go's `time.Parse` with a layout.
unfoldable pub parse_time : (Bytes → Bytes → Fallible ℕ) → Bytes → Fallible ℕ
parse_time parse s = elim (parse (bytes "2006-01-02T15:04:05.999999999Z07:00") s) [
  | fine t ↦ fine t
  | failure e ↦ parse (bytes "2006-01-02T15:04:05Z07:00") s
]
