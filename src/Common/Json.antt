-- ===== src/Common/Json.antt =====
-- What Go's `map[string]any` holds behind `encoding/json`. Of the numbers only those are there that
-- the sources write; none is read.
use safeswitch_router.Common.{ℕ, Bool, Option, none, some, Bytes, same, if◌then◌else◌}

mutual
  pub data Value : Type 0 where
    null : Value
    flag : Bool → Value
    num : ℕ → Value
    text : Bytes → Value
    array : Items → Value
    object : Fields → Value

  pub data Items : Type 0 where
    no_items : Items
    item : Value → Items → Items

  pub data Fields : Type 0 where
    no_fields : Fields
    field : Bytes → Value → Fields → Fields

-- `v, ok := m[key]`
unfoldable pub field_of : Bytes → Fields → Option Value
field_of key no_fields = none
field_of key (field k v fields) = if same k key then some v else field_of key fields
