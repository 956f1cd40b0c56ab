-- ===== src/Intercept/Rows/Encoding.antt =====
-- A row that `DataRowMut::apply` (crates/pgferry/src/intercept.rs) re-encodes is read back by
-- `DataRowMut::parse` as the values that were encoded.
use Prim.Native.Nat.{zero, suc}
use pgferry.Prelude.{
  ℕ, ◌+◌, ◌/◌, ◌%◌, ◌^◌, ◌<◌, ◌≡◌, refl, ap, ◌∙◌, sym, Option, none, some, List, [], ◌∷◌, ◌++◌,
  length-append, true, false, arith, length, leb, take, drop,
}
use pgferry.Intercept.Rows.{
  ValueSlot, range, DataRowMut, slice, get_i32, parse_values, parse, value_bytes, put_i32,
  encode_value, encode_values, apply,
}

pub get_i32-put_i32 :
    (n : ℕ)
    → n < 2 ^ 31
    → get_i32 (n / 2 ^ 24 % 256) (n / 2 ^ 16 % 256) (n / 2 ^ 8 % 256) (n % 256) ≡ some n
unfolding get_i32
get_i32-put_i32 n h = ground arith

drop-append : {A : Type 0} (xs ys : List A) → drop (length xs) (xs ++ ys) ≡ ys
drop-append [] ys = refl
drop-append (x ∷ xs) ys = drop-append xs ys

take-append : {A : Type 0} (xs ys : List A) → take (length xs) (xs ++ ys) ≡ xs
take-append [] ys = refl
take-append (x ∷ xs) ys = ap (λ zs. x ∷ zs) (take-append xs ys)

drop-nil : {A : Type 0} (n : ℕ) → drop {A = A} n [] ≡ []
drop-nil zero = refl
drop-nil (suc n) = refl

drop-add : {A : Type 0} (m n : ℕ) (xs : List A) → drop (m + n) xs ≡ drop n (drop m xs)
drop-add zero n xs = ap (λ k. drop k xs) (omega arith)
drop-add (suc m) n [] = drop-nil (suc m + n) ∙ sym (drop-nil n)
drop-add (suc m) n (x ∷ xs) =
    let carry : suc m + n ≡ suc (m + n) = omega arith in
    ap (λ k. drop k (x ∷ xs)) carry ∙ drop-add m n xs

-- The columns of a row: the bytes of each, `none` for NULL.
abbrev pub contents : List ℕ → List (Option ValueSlot) → List (Option (List ℕ))
contents bytes [] = []
contents bytes (v ∷ vs) = value_bytes bytes v ∷ contents bytes vs

-- Each length fits the protocol's signed 32 bits.
abbrev pub Fits : List (Option (List ℕ)) → Type 0
Fits [] = Unit
Fits (none ∷ cs) = Fits cs
Fits (some bytes ∷ cs) = (length bytes < 2 ^ 31) × Fits cs

encode_all : List (Option (List ℕ)) → List ℕ
encode_all [] = []
encode_all (c ∷ cs) = encode_value c ++ encode_all cs

encode_values-contents :
    (bytes : List ℕ) (vs : List (Option ValueSlot))
    → encode_values bytes vs ≡ encode_all (contents bytes vs)
unfolding encode_values encode_all
encode_values-contents bytes [] = refl
encode_values-contents bytes (v ∷ vs) =
    ap (λ rest. encode_value (value_bytes bytes v) ++ rest) (encode_values-contents bytes vs)

parse_values-some :
    (n offset a b c d len : ℕ) (cursor : List ℕ) (ws : List (Option ValueSlot))
    → get_i32 a b c d ≡ some len
    → leb len (length cursor) ≡ true
    → parse_values n (offset + 4 + len) (drop len cursor) ≡ some ws
    → parse_values (suc n) offset (a ∷ b ∷ c ∷ d ∷ cursor)
      ≡ some (some (range (offset + 4) len) ∷ ws)
unfolding parse_values
parse_values-some n offset a b c d len cursor ws e f g = ground arith

-- What a parse from `offset` on reads.
Reads : List ℕ → ℕ → List (Option (List ℕ)) → Type 0
Reads bytes offset cs =
    (ws : List (Option ValueSlot)) × (parse_values (length cs) offset (encode_all cs) ≡ some ws)
    × (contents bytes ws ≡ cs)

fits : (value rest : List ℕ) → leb (length value) (length (value ++ rest)) ≡ true
fits value rest = ground (arith, length-append value rest)

after_length :
    (bytes : List ℕ) (offset : ℕ) (value : List ℕ) (cs : List (Option (List ℕ)))
    → drop offset bytes ≡ encode_all (some value ∷ cs)
    → drop (offset + 4) bytes ≡ value ++ encode_all cs
unfolding encode_all encode_value put_i32
after_length bytes offset value cs e = drop-add offset 4 bytes ∙ ap (drop 4) e

slice-value :
    (bytes : List ℕ) (offset : ℕ) (value : List ℕ) (cs : List (Option (List ℕ)))
    → drop offset bytes ≡ encode_all (some value ∷ cs)
    → slice (offset + 4) (length value) bytes ≡ value
slice-value bytes offset value cs e =
    ap (take (length value)) (after_length bytes offset value cs e)
    ∙ take-append value (encode_all cs)

after_value :
    (bytes : List ℕ) (offset : ℕ) (value : List ℕ) (cs : List (Option (List ℕ)))
    → drop offset bytes ≡ encode_all (some value ∷ cs)
    → drop (offset + 4 + length value) bytes ≡ encode_all cs
after_value bytes offset value cs e =
    drop-add (offset + 4) (length value) bytes
    ∙ ap (drop (length value)) (after_length bytes offset value cs e)
    ∙ drop-append value (encode_all cs)

Reads-some :
    (bytes : List ℕ) (offset : ℕ) (value : List ℕ) (cs : List (Option (List ℕ)))
    → length value < 2 ^ 31
    → drop offset bytes ≡ encode_all (some value ∷ cs)
    → Reads bytes (offset + 4 + length value) cs
    → Reads bytes offset (some value ∷ cs)
unfolding Reads encode_all encode_value put_i32 value_bytes
Reads-some bytes offset value cs h e (ws, read, same) = (
  some (range (offset + 4) (length value)) ∷ ws,
  parse_values-some (length cs) offset _ _ _ _ (length value) (value ++ encode_all cs) ws
      (get_i32-put_i32 (length value) h) (fits value (encode_all cs))
      (rw (drop-append value (encode_all cs)) read),
  ap (λ v. some v ∷ contents bytes ws) (slice-value bytes offset value cs e)
      ∙ ap (λ vs. some value ∷ vs) same,
)

parse_values-encode_all :
    (bytes : List ℕ) (cs : List (Option (List ℕ))) (offset : ℕ)
    → Fits cs
    → drop offset bytes ≡ encode_all cs
    → Reads bytes offset cs
unfolding Reads encode_all encode_value parse_values value_bytes
parse_values-encode_all bytes [] offset h e = ([], refl, refl)
parse_values-encode_all bytes (none ∷ cs) offset h e =
    let (ws, read, same) =
      parse_values-encode_all bytes cs (offset + 4) h (drop-add offset 4 bytes ∙ ap (drop 4) e) in
    (none ∷ ws, rw read refl, ap (λ vs. none ∷ vs) same)
parse_values-encode_all bytes (some value ∷ cs) offset (fit, h) e =
    Reads-some bytes offset value cs fit e (
      parse_values-encode_all bytes cs (offset + 4 + length value) h
        (after_value bytes offset value cs e))

contents-count :
    (bytes : List ℕ) (vs : List (Option ValueSlot)) → length (contents bytes vs) ≡ length vs
contents-count bytes [] = refl
contents-count bytes (v ∷ vs) = ap suc (contents-count bytes vs)

-- The columns of a decoded row.
abbrev pub columns : DataRowMut → List (Option (List ℕ))
columns r = contents r.row.bytes r.values

-- An edited row that is sent on decodes to the very columns that it had after its edits, NULLs
-- included, where it has as many values as fields and no value has 2^31 bytes or more.
pub parse-apply :
    (r : DataRowMut)
    → r.modified ≡ true
    → r.row.field_count ≡ length r.values
    → Fits (columns r)
    → (d : DataRowMut) × (parse (apply r) ≡ some d) × (columns d ≡ columns r)
unfolding parse apply Reads
parse-apply r m f h =
    let cs = columns r in
    let bytes = encode_values r.row.bytes r.values in
    let (ws, read, same) =
      parse_values-encode_all bytes cs 0 h (encode_values-contents r.row.bytes r.values) in
    let count : r.row.field_count ≡ length cs = f ∙ sym (contents-count r.row.bytes r.values) in
    let whole : parse_values r.row.field_count 0 bytes ≡ some ws =
      ap (λ n. parse_values n 0 bytes) count
      ∙ ap (parse_values (length cs) 0) (encode_values-contents r.row.bytes r.values)
      ∙ read in
    (
      record { row = record (r.row) { bytes = bytes }; values = ws; modified = false },
      rw m (rw (parse, whole) refl),
      same,
    )
