-- ===== src/Pool/Literals.antt =====
-- The literals that `set_parameter` of crates/pgferry/src/pool.rs puts into a `SET` statement.
use Prim.Native.Char.{Char, code}
use Prim.Native.String.{String, ◌++◌}
use Prim.Native.String.append
use pgferry.Prelude.{
  ◌≡◌, refl, arith, ap, ◌∙◌, Option, none, some, Bool, true, false, if◌then◌else◌, ◌==◌, Bool-cases,
  inl, inr,
}
use pgferry.Pool.Parameters.{escape_quotes, set_statement}

abbrev prepend : Char → Option String → Option String
prepend c none = none
prepend c (some s) = some (String.◌∷◌ c s)

-- A literal as SQL reads it, behind its opening quote: two quotes are one of the text, a single one
-- must be the last character. `quoted` behind a quote.
unfoldable pub read_literal : Bool → String → Option String
read_literal false String.[] = none
read_literal true String.[] = some String.[]
read_literal false (String.◌∷◌ c s) =
    let plain = read_literal false s in
    let behind = read_literal true s in if code c == 39 then behind else prepend c plain
read_literal true (String.◌∷◌ c s) =
    let plain = read_literal false s in if code c == 39 then prepend c plain else none

read_quote :
    (c : Char) (s : String)
    → code c == 39 ≡ true
    → read_literal false (String.◌∷◌ c (String.◌∷◌ c s)) ≡ prepend c (read_literal false s)
unfolding read_literal
read_quote c s e = ground (arith, e)

read_plain :
    (c : Char) (s : String)
    → code c == 39 ≡ false
    → read_literal false (String.◌∷◌ c s) ≡ prepend c (read_literal false s)
unfolding read_literal
read_plain c s e = ground (arith, e)

escape_quotes-quote :
    (c : Char) (s : String)
    → code c == 39 ≡ true
    → escape_quotes (String.◌∷◌ c s) ≡ String.◌∷◌ c (String.◌∷◌ c (escape_quotes s))
unfolding escape_quotes
escape_quotes-quote c s e = ground (arith, e)

escape_quotes-plain :
    (c : Char) (s : String)
    → code c == 39 ≡ false
    → escape_quotes (String.◌∷◌ c s) ≡ String.◌∷◌ c (escape_quotes s)
unfolding escape_quotes
escape_quotes-plain c s e = ground (arith, e)

pub read_literal-escape_quotes :
    (value : String) → read_literal false (escape_quotes value ++ "'") ≡ some value
unfolding read_literal escape_quotes
read_literal-escape_quotes String.[] = refl
read_literal-escape_quotes (String.◌∷◌ c s) = elim (Bool-cases (code c == 39)) [
  | inl e ↦
      ap (λ t. read_literal false (t ++ "'")) (escape_quotes-quote c s e)
      ∙ ap (read_literal false) (append.cons c (String.◌∷◌ c (escape_quotes s)) "'")
      ∙ ap (λ t. read_literal false (String.◌∷◌ c t)) (append.cons c (escape_quotes s) "'")
      ∙ read_quote c (escape_quotes s ++ "'") e
      ∙ ap (prepend c) (read_literal-escape_quotes s)
  | inr e ↦
      ap (λ t. read_literal false (t ++ "'")) (escape_quotes-plain c s e)
      ∙ ap (read_literal false) (append.cons c (escape_quotes s) "'")
      ∙ read_plain c (escape_quotes s ++ "'") e
      ∙ ap (prepend c) (read_literal-escape_quotes s)
]

-- A `SET` statement is the parameter's name and a literal that reads as the value.
pub set_statement-read_literal :
    (name value : String)
    → (body : String) × (set_statement name value ≡ "SET " ++ name ++ " = '" ++ body)
      × (read_literal false body ≡ some value)
unfolding set_statement
set_statement-read_literal name value =
    (escape_quotes value ++ "'", refl, read_literal-escape_quotes value)
