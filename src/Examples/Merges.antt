-- ===== src/Examples/Merges.antt =====
-- The theorems on scatters, applied.
use pgferry.Prelude.{ℕ, ◌-◌, ◌^◌, String, none, false, List, [], ◌∷◌, length}
use pgferry.Wire.{BackendMessage, row_description, data_row, command_complete, DataRow}
use pgferry.Scatter.{LegOutcome}
use pgferry.Scatter.Merge.{sum_row}

-- A row of one text column.
abbrev row_of : List ℕ → DataRow
row_of text = record { bytes = 0 ∷ 0 ∷ 0 ∷ length text ∷ text; field_count = 1 }

abbrev select : List ℕ
select = 83 ∷ []

-- The outcome of a leg that answered with one row of this text.
abbrev answered : String → List ℕ → LegOutcome
answered shard text = record {
  endpoint = shard;
  messages = row_description [] ∷ data_row (row_of text) ∷ command_complete (83 ∷ []) ∷ [];
  rows = 1;
  error = none;
  dirty = false;
  conn_broken = false;
  lease = none;
  taken = none;
}

abbrev legs : List LegOutcome
legs = answered "a" (49 ∷ 50 ∷ []) ∷ answered "b" (55 ∷ []) ∷ []

-- The counts of two shards, 12 and -5.
abbrev minus_five : ℕ
minus_five = 2 ^ 128 - 5

abbrev counts : List BackendMessage
counts =
    row_description []
    ∷ data_row (sum_row 12)
    ∷ command_complete (83 ∷ [])
    ∷ row_description []
    ∷ data_row (sum_row minus_five)
    ∷ command_complete (83 ∷ [])
    ∷ []
