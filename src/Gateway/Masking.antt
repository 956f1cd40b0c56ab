-- ===== src/Gateway/Masking.antt =====
-- What the gateway of crates/pgferry/examples/gateway.rs does to a row: `on_row`.
use pgferry.Prelude.{
  ℕ, suc, ◌<◌, ◌≡◌, refl, ◌∙◌, ap, sym, subst, Option, none, some, String, List, [], ◌∷◌, Bool,
  true, false, not, ◌||◌, ◌&&◌, ◌+◌, str_eq, arith, ◌==◌, Bool-cases, Option-cases, zero, inl, inr,
  length, ltb, get_elem?,
}
use pgferry.Intercept.{RowSchema, column_index, column_index_from, keep}
use pgferry.Intercept.Rows.{DataRowMut, owned, set_text, set_value, out_of_range}
use pgferry.Intercept.Rows.Columns.{
  Read, value, unreadable, text, text_of, written, set_value-written, get_elem?-set, text-other,
  length-set,
}
use pgferry.Gateway.{
  Gateway, Library, stars, mask_read, edited_or, mask_at, mask_found, mask, on_row,
}

-- What a column reads as once it is masked: a text is hidden, NULL and what is no text are not.
abbrev pub hide : Bool → Read (Option (List ℕ)) → Read (Option (List ℕ))
hide true (value (some _)) = value (some stars)
hide true r = r
hide false r = r

abbrev is_at : ℕ → Option ℕ → Bool
is_at j none = false
is_at j (some i) = i == j

-- Whether the column at `j` has the name, and no column before it.
abbrev pub is_first : String → RowSchema → ℕ → Bool
is_first name [] j = false
is_first name (c ∷ cs) zero = str_eq c.name name
is_first name (c ∷ cs) (suc j) = not (str_eq c.name name) && is_first name cs j

-- Whether it is the first of one of the names.
abbrev pub is_named : List String → RowSchema → ℕ → Bool
is_named [] schema j = false
is_named (name ∷ names) schema j = is_first name schema j || is_named names schema j

-- No column is found before where the search starts.
column_index_from-past :
    (n i : ℕ) (name : String) (schema : RowSchema)
    → n < i
    → is_at n (column_index_from i name schema) ≡ false
unfolding column_index_from
column_index_from-past n i name [] b = refl
column_index_from-past n i name (c ∷ cs) b = elim (Bool-cases (str_eq c.name name)) [
  | inl e ↦ rw e (ground (arith, b))
  | inr e ↦ rw e (column_index_from-past n (suc i) name cs (omega (arith, b)))
]

column_index_from-is_first :
    (i : ℕ) (name : String) (schema : RowSchema) (j : ℕ)
    → is_at (i + j) (column_index_from i name schema) ≡ is_first name schema j
unfolding column_index_from
column_index_from-is_first i name [] j = refl
column_index_from-is_first i name (c ∷ cs) zero = elim (Bool-cases (str_eq c.name name)) [
  | inl e ↦ rw e (ground arith)
  | inr e ↦ rw e (column_index_from-past (i + 0) (suc i) name cs (omega arith))
]
column_index_from-is_first i name (c ∷ cs) (suc j) = elim (Bool-cases (str_eq c.name name)) [
  | inl e ↦ rw e (ground arith)
  | inr e ↦
      let shifted : i + suc j ≡ suc i + j = omega arith in
      rw e (
        ap (λ n. is_at n (column_index_from (suc i) name cs)) shifted
        ∙ column_index_from-is_first (suc i) name cs j)
]

column_index-is_first :
    (name : String) (schema : RowSchema) (j : ℕ)
    → is_at j (column_index name schema) ≡ is_first name schema j
unfolding column_index
column_index-is_first name schema j =
    let start : j ≡ 0 + j = omega arith in
    ap (λ n. is_at n (column_index_from 0 name schema)) start
    ∙ column_index_from-is_first 0 name schema j

get_elem?-inside :
    {A : Type 0} (xs : List A) (i : ℕ) (x : A) → get_elem? xs i ≡ some x → i < length xs
unfolding get_elem?
get_elem?-inside [] i x e = cc
get_elem?-inside (y ∷ xs) zero x e = omega arith
get_elem?-inside (y ∷ xs) (suc i) x e = omega (arith, get_elem?-inside xs i x e)

module _ (is_utf8 : List ℕ → Bool) (readable : is_utf8 stars ≡ true) where
  -- A column that reads as a text is one of the row.
  inside :
      (i : ℕ) (t : List ℕ) (row : DataRowMut)
      → text is_utf8 i row ≡ value (some t)
      → i < length row.values
  unfolding text
  inside i t row e = elim (Option-cases (get_elem? row.values i)) [
    | inl missing ↦
        let clash : unreadable (out_of_range i (length row.values)) ≡ value (some t) =
          sym (ap (text_of is_utf8 i (length row.values) row.row.bytes) missing) ∙ e in
        cc clash
    | inr (v, found) ↦ get_elem?-inside row.values i v found
  ]

  -- The column that is masked, and another.
  text-masked :
      (i : ℕ) (row : DataRowMut)
      → i < length row.values
      → text is_utf8 i (written i (some (owned stars)) row) ≡ value (some stars)
  unfolding text
  text-masked i row b = rw (get_elem?-set row.values i (some (owned stars)) b, readable) refl

  module _ (i j : ℕ) (row : DataRowMut) where
    read-other :
        (r : Read (Option (List ℕ)))
        → i == j ≡ false
        → text is_utf8 i row ≡ r
        → text is_utf8 j (mask_read r i row) ≡ text is_utf8 j row
    unfolding set_text
    read-other (value none) d e = refl
    read-other (unreadable error) d e = refl
    read-other (value (some t)) d e =
        ap (λ w. text is_utf8 j (edited_or row w))
          (set_value-written i (some (owned stars)) row (inside i t row e))
        ∙ text-other is_utf8 i j (some (owned stars)) row d

    read-same :
        (r : Read (Option (List ℕ)))
        → text is_utf8 i row ≡ r
        → text is_utf8 i (mask_read r i row) ≡ hide true r
    unfolding set_text
    read-same (value none) e = e
    read-same (unreadable error) e = e
    read-same (value (some t)) e =
        ap (λ w. text is_utf8 i (edited_or row w))
          (set_value-written i (some (owned stars)) row (inside i t row e))
        ∙ text-masked i row (inside i t row e)

  mask_at-text :
      (i j : ℕ) (row : DataRowMut)
      → text is_utf8 j (mask_at is_utf8 i row) ≡ hide (i == j) (text is_utf8 j row)
  unfolding mask_at
  mask_at-text i j row = elim (Bool-cases (i == j)) [
    | inl same ↦
        let eq : i ≡ j = ground (arith, same) in
        rw same (
          subst
            (λ k.
              text is_utf8 k (mask_read (text is_utf8 i row) i row)
              ≡ hide true (text is_utf8 k row))
            eq (read-same i j row (text is_utf8 i row) refl))
    | inr other ↦ rw other (read-other i j row (text is_utf8 i row) other refl)
  ]

  hide-hide : (a b : Bool) (r : Read (Option (List ℕ))) → hide b (hide a r) ≡ hide (a || b) r
  hide-hide true true (value (some t)) = refl
  hide-hide true true (value none) = refl
  hide-hide true true (unreadable e) = refl
  hide-hide true false r = refl
  hide-hide false b r = refl

  mask_found-text :
      (found : Option ℕ) (j : ℕ) (row : DataRowMut)
      → text is_utf8 j (mask_found is_utf8 found row) ≡ hide (is_at j found) (text is_utf8 j row)
  unfolding mask_found
  mask_found-text none j row = refl
  mask_found-text (some i) j row = mask_at-text i j row

  mask-text :
      (names : List String) (schema : RowSchema) (j : ℕ) (row : DataRowMut)
      → text is_utf8 j (mask is_utf8 names schema row)
        ≡ hide (is_named names schema j) (text is_utf8 j row)
  unfolding mask
  mask-text [] schema j row = refl
  mask-text (name ∷ names) schema j row =
      let found = column_index name schema in
      mask-text names schema j (mask_found is_utf8 found row)
      ∙ ap (hide (is_named names schema j)) (
          mask_found-text found j row
          ∙ ap (λ b. hide b (text is_utf8 j row)) (column_index-is_first name schema j))
      ∙ hide-hide (is_first name schema j) (is_named names schema j) (text is_utf8 j row)

  count_read :
      (r : Read (Option (List ℕ))) (i : ℕ) (row : DataRowMut)
      → length (mask_read r i row).values ≡ length row.values
  unfolding set_text set_value
  count_read (value none) i row = refl
  count_read (unreadable error) i row = refl
  count_read (value (some t)) i row = elim (Bool-cases (ltb i (length row.values))) [
    | inl in_range ↦ rw in_range (length-set row.values i (some (owned stars)))
    | inr out ↦ rw out refl
  ]

  count_found :
      (found : Option ℕ) (row : DataRowMut)
      → length (mask_found is_utf8 found row).values ≡ length row.values
  unfolding mask_at
  count_found none row = refl
  count_found (some i) row = count_read (text is_utf8 i row) i row

  count :
      (names : List String) (schema : RowSchema) (row : DataRowMut)
      → length (mask is_utf8 names schema row).values ≡ length row.values
  unfolding mask
  count [] schema row = refl
  count (name ∷ names) schema row =
      let found = column_index name schema in
      count names schema (mask_found is_utf8 found row) ∙ count_found found row

-- Every row is kept, with all its columns. A column reads as three stars if it is the first one of a
-- masked name and held a text; each other column, a second one of a masked name among them, a NULL,
-- and a value that is no UTF-8 read as before. Three stars are UTF-8.
pub on_row-masks :
    {Regex : Type 0} (lib : Library Regex) (g : Gateway Regex) (schema : RowSchema) (j : ℕ)
    (row : DataRowMut)
    → lib.is_utf8 stars ≡ true
    → let (row', action) = on_row lib g schema row in
      (action ≡ keep)
      × (length row'.values ≡ length row.values)
      × (text lib.is_utf8 j row' ≡ hide (is_named g.mask_columns schema j) (text lib.is_utf8 j row))
unfolding on_row
on_row-masks lib g schema j row readable = (
  refl,
  count lib.is_utf8 readable g.mask_columns schema row,
  mask-text lib.is_utf8 readable g.mask_columns schema j row,
)
