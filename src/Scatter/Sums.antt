-- ===== src/Scatter/Sums.antt =====
-- The `Sum` merge of `execute_scatter` (crates/pgferry/src/scatter.rs) over columns that hold numbers.
use pgferry.Prelude.{ℕ, ◌^◌, ◌<◌, List, [], ◌∷◌, Bool, true, ◌&&◌, leb, length}
use pgferry.Wire.{DataRow}
use pgferry.Scatter.Merge.{print_i128, sum_row}

-- Without white space.
abbrev visible : List ℕ → Bool
visible [] = true
visible (c ∷ cs) = leb 33 c && visible cs

-- A number whose text's length fits an `i32`.
abbrev pub Fits : ℕ → Type 0
Fits n = (n < 2 ^ 128) × (length (print_i128 n) < 2 ^ 31)

abbrev pub AllFit : List ℕ → Type 0
AllFit [] = Unit {0}
AllFit (n ∷ ns) = Fits n × AllFit ns

abbrev pub sum_rows : List ℕ → List DataRow
sum_rows [] = []
sum_rows (n ∷ ns) = sum_row n ∷ sum_rows ns
