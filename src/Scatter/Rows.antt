-- ===== src/Scatter/Rows.antt =====
-- What the merge arms of `execute_scatter` (crates/pgferry/src/scatter.rs) pass on: the rows and the
-- schema of a `Concat` merge, the total of a `Sum` merge.
use pgferry.Prelude.{
  ℕ, ◌+◌, ◌%◌, ◌^◌, ◌≡◌, refl, ap, ◌∙◌, Option, none, some, List, [], ◌∷◌, ◌++◌, arith,
}
use pgferry.Wire.{BackendMessage, row_description, data_row, command_complete, DataRow, ColumnMeta}
use pgferry.Scatter.{LegOutcome}
use pgferry.Scatter.Merge.{
  tag_with_count, first_column_i128, sum_messages, sum_row, merged_sum, schema_first,
}

-- The rows, the schemas and the tags among messages, in order.
abbrev pub rows_of : List BackendMessage → List DataRow
rows_of [] = []
rows_of (data_row d ∷ ms) = d ∷ rows_of ms
rows_of (m ∷ ms) = rows_of ms

abbrev pub schemas_of : List BackendMessage → List (List ColumnMeta)
schemas_of [] = []
schemas_of (row_description cs ∷ ms) = cs ∷ schemas_of ms
schemas_of (m ∷ ms) = schemas_of ms

abbrev pub tags_of : List BackendMessage → List (List ℕ)
tags_of [] = []
tags_of (command_complete t ∷ ms) = t ∷ tags_of ms
tags_of (m ∷ ms) = tags_of ms

abbrev pub first {ℓ} : {A : Type ℓ} → List A → List A
first [] = []
first (x ∷ xs) = x ∷ []

-- What each leg contributed, one leg after the other.
abbrev pub leg_rows : List LegOutcome → List DataRow
leg_rows [] = []
leg_rows (o ∷ os) = rows_of o.messages ++ leg_rows os

abbrev pub leg_schemas : List LegOutcome → List (List ColumnMeta)
leg_schemas [] = []
leg_schemas (o ∷ os) = schemas_of o.messages ++ leg_schemas os

-- The numbers of the rows, `none` where a row has none.
abbrev pub numbers_of : List DataRow → Option (List ℕ)
numbers_of [] = some []
numbers_of (d ∷ ds) = elim (first_column_i128 d) [
  | none ↦ none
  | some n ↦ elim (numbers_of ds) [ none ↦ none | some ns ↦ some (n ∷ ns) ]
]

abbrev pub total : List ℕ → ℕ
total [] = 0
total (n ∷ ns) = n + total ns

abbrev pub head_or : Option (List ColumnMeta) → List (List ColumnMeta) → Option (List ColumnMeta)
head_or (some s) ss = some s
head_or none [] = none
head_or none (s ∷ ss) = some s

summed : ℕ → Option (List ColumnMeta) → Option (List ℕ) → Option (ℕ × Option (List ColumnMeta))
summed n s none = none
summed n s (some ns) = some ((n + total ns) % 2 ^ 128, s)

summed-cons :
    (n k : ℕ) (s : Option (List ColumnMeta)) (r : Option (List ℕ))
    → summed ((n + k) % 2 ^ 128) s r ≡ summed n s (elim r [ none ↦ none | some ns ↦ some (k ∷ ns) ])
unfolding summed
summed-cons n k s none = refl
summed-cons n k s (some ns) = ap (λ t. some (t, s)) (omega arith)

summed-data_row :
    (n : ℕ) (s : Option (List ColumnMeta)) (o : Option ℕ) (ds : List DataRow)
    (ms : List BackendMessage) (s' : Option (List ColumnMeta))
    → ((k : ℕ)
        → sum_messages ((n + k) % 2 ^ 128) s ms ≡ summed ((n + k) % 2 ^ 128) s' (numbers_of ds))
    → elim o [ none ↦ none | some k ↦ sum_messages ((n + k) % 2 ^ 128) s ms ]
      ≡ summed n s' (elim o [
        | none ↦ none
        | some k ↦ elim (numbers_of ds) [ none ↦ none | some ns ↦ some (k ∷ ns) ]
      ])
unfolding summed
summed-data_row n s none ds ms s' h = refl
summed-data_row n s (some k) ds ms s' h = h _ ∙ summed-cons n k s' (numbers_of ds)

sum_messages-summed :
    (ms : List BackendMessage) (n : ℕ) (s : Option (List ColumnMeta))
    → n % 2 ^ 128 ≡ n
    → sum_messages n s ms ≡ summed n (head_or s (schemas_of ms)) (numbers_of (rows_of ms))
unfolding sum_messages summed
sum_messages-summed [] n none h = ap (λ t. some (t, none)) (omega arith)
sum_messages-summed [] n (some cs) h = ap (λ t. some (t, some cs)) (omega arith)
sum_messages-summed (row_description cs ∷ ms) n none h = sum_messages-summed ms n (some cs) h
sum_messages-summed (row_description cs ∷ ms) n (some s) h = sum_messages-summed ms n (some s) h
sum_messages-summed (data_row d ∷ ms) n none h =
    summed-data_row n none (first_column_i128 d) (rows_of ms) ms _
      λ k. sum_messages-summed ms _ none (omega arith)
sum_messages-summed (data_row d ∷ ms) n (some s) h =
    summed-data_row n (some s) (first_column_i128 d) (rows_of ms) ms _
      λ k. sum_messages-summed ms _ (some s) (omega arith)
sum_messages-summed (m ∷ ms) n none h = sum_messages-summed ms n none h
sum_messages-summed (m ∷ ms) n (some s) h = sum_messages-summed ms n (some s) h

abbrev pub headers : List (List ColumnMeta) → List BackendMessage
headers [] = []
headers (cs ∷ ss) = row_description cs ∷ []

-- The result set of a sum.
abbrev pub one_total : List ℕ → List BackendMessage → ℕ → List BackendMessage
one_total tag ms n =
    headers (schemas_of ms)
    ++ data_row (sum_row (n % 2 ^ 128)) ∷ command_complete (tag_with_count tag 1) ∷ []

schema_first-headers :
    (ss : List (List ColumnMeta)) (ms : List BackendMessage)
    → schema_first (head_or none ss) ms ≡ headers ss ++ ms
schema_first-headers [] ms = refl
schema_first-headers (s ∷ ss) ms = refl

-- A `Sum` merge fails exactly when the first column of some row is not a number; else it sends one
-- row, the sum of the numbers of all rows (as 128-bit integers), under the first schema.
pub merged_sum-adds :
    (tag : List ℕ) (ms : List BackendMessage)
    → merged_sum tag ms ≡ elim (numbers_of (rows_of ms)) [
      | none ↦ none
      | some ns ↦ some (one_total tag ms (total ns))
    ]
unfolding merged_sum summed
merged_sum-adds tag ms =
    rw (merged_sum, sum_messages-summed ms 0 none refl) (by_numbers (numbers_of (rows_of ms)))
  where
    by_numbers :
        (r : Option (List ℕ))
        → elim (summed 0 (head_or none (schemas_of ms)) r) [
          | none ↦ none
          | some (n, schema) ↦ some (
              schema_first schema
                (data_row (sum_row n) ∷ command_complete (tag_with_count tag 1) ∷ []))
        ]
          ≡ elim r [ none ↦ none | some ns ↦ some (one_total tag ms (total ns)) ]
    by_numbers none = refl
    by_numbers (some ns) =
        let same : (0 + total ns) % 2 ^ 128 ≡ total ns % 2 ^ 128 = omega arith in
        simp same (ap some (schema_first-headers (schemas_of ms) _))
