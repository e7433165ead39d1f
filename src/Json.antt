-- ===== src/Json.antt =====
-- JSON (json.RawMessage and package encoding/json). A message is its parsed value: the code reads
-- and writes the bytes of a valid message through encoding/json only.
use windforce_lite.Prelude.{Bool, true, false, Option, none, some, ite}
use windforce_lite.Prelude.Int.{ℤ}
use windforce_lite.Str.{Str, str_dec}

mutual
  pub data Json : Type 0 where
    null : Json
    bool : Bool → Json
    number : ℤ → Json
    text : Str → Json
    array : Items → Json
    object : Fields → Json

  pub data Items : Type 0 where
    no_items : Items
    item : Json → Items → Items

  pub data Fields : Type 0 where
    no_fields : Fields
    field : Str → Json → Fields → Fields

-- A json.RawMessage: of length 0, a valid message, or bytes that are no JSON.
pub data Raw : Type 0 where
  absent : Raw
  json : Json → Raw
  malformed : Str → Raw

-- len(raw) == 0
abbrev pub is_absent : Raw → Bool
is_absent absent = true
is_absent _ = false

-- json.Valid
abbrev pub valid : Raw → Bool
valid (json j) = true
valid _ = false

-- value, ok := object[key]
unfoldable pub find_field : Str → Fields → Option Json
find_field k no_fields = none
find_field k (field j v fs) = ite (str_dec j k) (some v) (find_field k fs)

-- object[key] = value
unfoldable pub set_field : Str → Json → Fields → Fields
set_field k v no_fields = field k v no_fields
set_field k v (field j w fs) = ite (str_dec j k) (field k v fs) (field j w (set_field k v fs))
