-- ===== src/Intercept/Rows/Columns.antt =====
-- Columns of a `DataRowMut` (crates/pgferry/src/intercept.rs): reading, and what writing one changes.
-- Whether bytes are UTF-8 is given.
use Prim.Native.Nat.{zero, suc}
use pgferry.Prelude.{
  ℕ, ◌<◌, ◌≡◌, refl, ap, ◌∙◌, Option, none, some, List, [], ◌∷◌, Bool, true, false, arith, length,
  ltb, ◌==◌, is_none, if◌then◌else◌, get_elem?, set,
}
use pgferry.Intercept.Rows.{
  DataRowMut, ValueSlot, owned, range, RowError, out_of_range, binary_column, slice, edited,
  set_value, set_text, set_null,
}

pub data Read (A : Type 0) : Type 0 where
  value : A → Read A
  unreadable : RowError → Read A

abbrev pub if_utf8 : (List ℕ → Bool) → ℕ → List ℕ → Read (Option (List ℕ))
if_utf8 is_utf8 index bytes =
    if is_utf8 bytes then value (some bytes) else unreadable (binary_column index)

-- What is found at the index, in a row of `count` columns.
abbrev pub text_of :
    (List ℕ → Bool) → ℕ → ℕ → List ℕ → Option (Option ValueSlot) → Read (Option (List ℕ))
text_of is_utf8 index count bytes none = unreadable (out_of_range index count)
text_of is_utf8 index count bytes (some none) = value none
text_of is_utf8 index count bytes (some (some (owned new))) = if_utf8 is_utf8 index new
text_of is_utf8 index count bytes (some (some (range offset len))) =
    if_utf8 is_utf8 index (slice offset len bytes)

-- The text of a column, by its bytes; `none` for NULL.
unfoldable pub text : (List ℕ → Bool) → ℕ → DataRowMut → Read (Option (List ℕ))
unfolding get_elem?
text is_utf8 index r =
    text_of is_utf8 index (length r.values) r.row.bytes (get_elem? r.values index)

unfoldable pub is_null : ℕ → DataRowMut → Read Bool
unfolding get_elem?
is_null index r = elim (get_elem? r.values index) [
  | none ↦ unreadable (out_of_range index (length r.values))
  | some v ↦ value (is_none v)
]

pub get_elem?-set :
    {A : Type 0} (xs : List A) (i : ℕ) (v : A) → i < length xs → get_elem? (set xs i v) i ≡ some v
unfolding get_elem? set
get_elem?-set [] i v b = absurd (omega (arith, b))
get_elem?-set (x ∷ xs) zero v b = refl
get_elem?-set (x ∷ xs) (suc i) v b = get_elem?-set xs i v (omega (arith, b))

get_elem?-other :
    {A : Type 0} (xs : List A) (i j : ℕ) (v : A)
    → i == j ≡ false
    → get_elem? (set xs i v) j ≡ get_elem? xs j
unfolding get_elem? set
get_elem?-other [] i j v d = refl
get_elem?-other (x ∷ xs) zero zero v d = cc
get_elem?-other (x ∷ xs) zero (suc j) v d = refl
get_elem?-other (x ∷ xs) (suc i) zero v d = refl
get_elem?-other (x ∷ xs) (suc i) (suc j) v d = get_elem?-other xs i j v (ground (arith, d))

pub length-set : {A : Type 0} (xs : List A) (i : ℕ) (v : A) → length (set xs i v) ≡ length xs
unfolding set
length-set [] i v = refl
length-set (x ∷ xs) zero v = refl
length-set (x ∷ xs) (suc i) v = ap suc (length-set xs i v)

abbrev pub written : ℕ → Option ValueSlot → DataRowMut → DataRowMut
written index slot r = record r { values = set r.values index slot; modified = true }

pub set_value-written :
    (index : ℕ) (slot : Option ValueSlot) (r : DataRowMut)
    → index < length r.values
    → set_value index slot r ≡ edited (written index slot r)
unfolding set_value
set_value-written index slot r b =
    let inside : ltb index (length r.values) ≡ true = ground (arith, b) in
    rw (set_value, inside) refl

module _ (is_utf8 : List ℕ → Bool) where
  pub text-other :
      (index other : ℕ) (slot : Option ValueSlot) (r : DataRowMut)
      → index == other ≡ false
      → text is_utf8 other (written index slot r) ≡ text is_utf8 other r
  unfolding text
  text-other index other slot r d =
      ap (λ n. text_of is_utf8 other n r.row.bytes (get_elem? (set r.values index slot) other))
        (length-set r.values index slot)
      ∙ ap (text_of is_utf8 other (length r.values) r.row.bytes)
          (get_elem?-other r.values index other slot d)

  -- A column of the row that is set to a text reads as that text, and one that is set to NULL reads as
  -- NULL; every other column reads as before, whatever it held; and the number of columns stays. A
  -- text is UTF-8.
  text-set_text :
      (index other : ℕ) (new : List ℕ) (r : DataRowMut)
      → index < length r.values
      → is_utf8 new ≡ true
      → index == other ≡ false
      → (a : DataRowMut) × (b : DataRowMut) × (set_text index new r ≡ edited a)
        × (text is_utf8 index a ≡ value (some new))
        × (text is_utf8 other a ≡ text is_utf8 other r)
        × (length a.values ≡ length r.values)
        × (set_null index r ≡ edited b)
        × (is_null index b ≡ value true)
        × (text is_utf8 other b ≡ text is_utf8 other r)
        × (length b.values ≡ length r.values)
  unfolding set_text set_null text is_null
  text-set_text index other new r b u d =
      let now = written index (some (owned new)) r in
      let null = written index none r in
      (
        now,
        null,
        set_value-written index (some (owned new)) r b,
        rw (text, get_elem?-set r.values index (some (owned new)) b, u) refl,
        text-other index other (some (owned new)) r d,
        length-set r.values index (some (owned new)),
        set_value-written index none r b,
        rw (is_null, get_elem?-set r.values index none b) refl,
        text-other index other none r d,
        length-set r.values index none,
      )
