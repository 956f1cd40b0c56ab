-- ===== src/Scatter/Merge.antt =====
-- Merging the legs' messages into one result set (crates/pgferry/src/scatter.rs): the two arms of
-- `execute_scatter`'s `match &request.merge`, as the list of messages that they send, and
-- `first_column_i128`. An `i128` is its bit pattern; ASCII white space is trimmed.
use pgferry.Prelude.{
  take, ℕ, ◌+◌, ◌-◌, ◌%◌, ◌^◌, Option, none, some, List, [], ◌∷◌, ◌++◌, Bool, true, false, ◌&&◌,
  ◌||◌, ltb, leb, ◌==◌, if◌then◌else◌, length,
}
use pgferry.Prelude.Decimal.{print, parse_below}
use pgferry.Wire.{BackendMessage, row_description, data_row, command_complete, DataRow, ColumnMeta}
use pgferry.Intercept.Rows.{get_i32, put_i32}

-- `format!("{tag} {rows}")`.
unfoldable pub tag_with_count : List ℕ → ℕ → List ℕ
unfolding print
tag_with_count tag n = tag ++ 32 ∷ print n

-- The rows to pass on, with the first RowDescription only.
unfoldable pub concat_messages : Bool → List BackendMessage → List BackendMessage
concat_messages written [] = []
concat_messages false (row_description cs ∷ ms) = row_description cs ∷ concat_messages true ms
concat_messages true (row_description cs ∷ ms) = concat_messages true ms
concat_messages written (data_row d ∷ ms) = data_row d ∷ concat_messages written ms
concat_messages written (m ∷ ms) = concat_messages written ms

abbrev is_space : ℕ → Bool
is_space c = c == 32 || (leb 9 c && leb c 13)

unfoldable pub trim_start : List ℕ → List ℕ
trim_start [] = []
trim_start (c ∷ cs) = if is_space c then trim_start cs else c ∷ cs

unfoldable pub trim_end : List ℕ → List ℕ
trim_end [] = []
trim_end (c ∷ cs) = elim (trim_end cs) [
  | [] ↦ if is_space c then [] else c ∷ []
  | d ∷ ds ↦ c ∷ d ∷ ds
]

abbrev negated : Option ℕ → Option ℕ
negated none = none
negated (some n) = some ((2 ^ 128 - n) % 2 ^ 128)

-- `parse::<i128>()`: an optional sign and decimal digits, in range.
unfoldable pub parse_i128 : List ℕ → Option ℕ
unfolding parse_below
parse_i128 [] = none
parse_i128 (c ∷ cs) =
    if c == 45
    then negated (parse_below (2 ^ 127 + 1) cs)
    else if c == 43
    then parse_below (2 ^ 127) cs
    else parse_below (2 ^ 127) (c ∷ cs)

unfoldable pub print_i128 : ℕ → List ℕ
unfolding print
print_i128 n = if ltb n (2 ^ 127) then print n else 45 ∷ print (2 ^ 128 - n)

-- The source indexes the slice unchecked; a row that is too short is `none` here.
unfoldable pub first_column : List ℕ → Option (List ℕ)
unfolding get_i32
first_column (a ∷ b ∷ c ∷ d ∷ rest) = elim (get_i32 a b c d) [
  | none ↦ none
  | some len ↦ if leb len (length rest) then some (take len rest) else none
]
first_column bytes = none

unfoldable pub first_column_i128 : DataRow → Option ℕ
unfolding first_column trim_start trim_end parse_i128
first_column_i128 row = elim (first_column row.bytes) [
  | none ↦ none
  | some bytes ↦ parse_i128 (trim_end (trim_start bytes))
]

-- The first schema and the total of the first columns; `none` when a row has no number.
unfoldable pub sum_messages :
    ℕ → Option (List ColumnMeta) → List BackendMessage → Option (ℕ × Option (List ColumnMeta))
unfolding first_column_i128
sum_messages total schema [] = some (total, schema)
sum_messages total none (row_description cs ∷ ms) = sum_messages total (some cs) ms
sum_messages total (some s) (row_description cs ∷ ms) = sum_messages total (some s) ms
sum_messages total schema (data_row d ∷ ms) = elim (first_column_i128 d) [
  | none ↦ none
  | some n ↦ sum_messages ((total + n) % 2 ^ 128) schema ms
]
sum_messages total schema (m ∷ ms) = sum_messages total schema ms

unfoldable pub sum_row : ℕ → DataRow
unfolding put_i32 print_i128
sum_row total =
    let text = print_i128 total in record { bytes = put_i32 (length text) ++ text; field_count = 1 }

abbrev pub schema_first : Option (List ColumnMeta) → List BackendMessage → List BackendMessage
schema_first none ms = ms
schema_first (some cs) ms = row_description cs ∷ ms

-- What a `Concat` merge sends, ...
unfoldable pub merged_concat : List ℕ → ℕ → List BackendMessage → List BackendMessage
unfolding concat_messages tag_with_count
merged_concat tag total_rows ms =
    concat_messages false ms ++ command_complete (tag_with_count tag total_rows) ∷ []

-- ... and a `Sum` merge.
unfoldable pub merged_sum : List ℕ → List BackendMessage → Option (List BackendMessage)
unfolding sum_messages sum_row tag_with_count
merged_sum tag ms = elim (sum_messages 0 none ms) [
  | none ↦ none
  | some (total, schema) ↦ some (
      schema_first schema (data_row (sum_row total) ∷ command_complete (tag_with_count tag 1) ∷ []))
]
