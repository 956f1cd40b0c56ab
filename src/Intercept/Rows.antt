-- ===== src/Intercept/Rows.antt =====
-- `DataRowMut` of crates/pgferry/src/intercept.rs: a row decoded into ranges of its raw bytes, edited
-- by column and re-encoded. A byte is a number below 256.
pub mod Encoding
pub mod Columns
use pgferry.Prelude.{
  ℕ, zero, suc, ◌+◌, ◌*◌, ◌/◌, ◌%◌, ◌^◌, ◌<◌, Option, none, some, List, [], ◌∷◌, ◌++◌, Bool, true,
  false, ltb, leb, if◌then◌else◌, length, is_none, take, drop, get_elem?, set,
}
use pgferry.Wire.{DataRow}

pub data RowError : Type 0 where
  out_of_range : ℕ → ℕ → RowError
  binary_column null_column : ℕ → RowError

pub data ValueSlot : Type 0 where
  range : ℕ → ℕ → ValueSlot
  owned : List ℕ → ValueSlot

pub record DataRowMut : Type 0 where
  pub row : DataRow
  pub values : List (Option ValueSlot)
  pub modified : Bool

-- `get_i32`, with `none` for a negative length.
unfoldable pub get_i32 : ℕ → ℕ → ℕ → ℕ → Option ℕ
get_i32 a b c d = if ltb a 128 then some (a * 2 ^ 24 + b * 2 ^ 16 + c * 2 ^ 8 + d) else none

-- The loop of `parse`: `n` columns to go, `offset` bytes read.
unfoldable pub parse_values : ℕ → ℕ → List ℕ → Option (List (Option ValueSlot))
unfolding get_i32
parse_values zero offset cursor = some []
parse_values (suc n) offset (a ∷ b ∷ c ∷ d ∷ cursor) = elim (get_i32 a b c d) [
  | none ↦ elim (parse_values n (offset + 4) cursor) [
    | none ↦ none
    | some values ↦ some (none ∷ values)
  ]
  | some len ↦
      if leb len (length cursor)
      then elim (parse_values n (offset + 4 + len) (drop len cursor)) [
        | none ↦ none
        | some values ↦ some (some (range (offset + 4) len) ∷ values)
      ]
      else none
]
parse_values (suc n) offset cursor = none

unfoldable pub parse : DataRow → Option DataRowMut
unfolding parse_values
parse row = elim (parse_values row.field_count 0 row.bytes) [
  | none ↦ none
  | some values ↦ some (record { row = row; values = values; modified = false })
]

abbrev pub slice : ℕ → ℕ → List ℕ → List ℕ
slice offset len bytes = take len (drop offset bytes)

-- The bytes of a column's value, `none` for NULL.
unfoldable pub value_bytes : List ℕ → Option ValueSlot → Option (List ℕ)
value_bytes bytes none = none
value_bytes bytes (some (range offset len)) = some (slice offset len bytes)
value_bytes bytes (some (owned new)) = some new

pub data Edited : Type 0 where
  edited : DataRowMut → Edited
  refused : RowError → Edited

unfoldable pub set_value : ℕ → Option ValueSlot → DataRowMut → Edited
unfolding set
set_value index slot r =
    if ltb index (length r.values)
    then edited (record r { values = set r.values index slot; modified = true })
    else refused (out_of_range index (length r.values))

-- The text is given by its bytes.
unfoldable pub set_text : ℕ → List ℕ → DataRowMut → Edited
unfolding set_value
set_text index value r = set_value index (some (owned value)) r

unfoldable pub set_null : ℕ → DataRowMut → Edited
unfolding set_value
set_null index r = set_value index none r

-- `put_i32` of a length.
unfoldable pub put_i32 : ℕ → List ℕ
put_i32 n = n / 2 ^ 24 % 256 ∷ n / 2 ^ 16 % 256 ∷ n / 2 ^ 8 % 256 ∷ n % 256 ∷ []

unfoldable pub encode_value : Option (List ℕ) → List ℕ
unfolding put_i32
encode_value none = 255 ∷ 255 ∷ 255 ∷ 255 ∷ []
encode_value (some bytes) = put_i32 (length bytes) ++ bytes

unfoldable pub encode_values : List ℕ → List (Option ValueSlot) → List ℕ
unfolding encode_value value_bytes
encode_values bytes [] = []
encode_values bytes (v ∷ vs) = encode_value (value_bytes bytes v) ++ encode_values bytes vs

unfoldable pub apply : DataRowMut → DataRow
unfolding encode_values
apply r =
    if r.modified then record (r.row) { bytes = encode_values r.row.bytes r.values } else r.row
