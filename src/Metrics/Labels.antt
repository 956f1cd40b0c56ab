-- ===== src/Metrics/Labels.antt =====
-- The labels that crates/pgferry/src/metrics.rs writes can be read back.
use mathlib.Core.List.{append_assoc}
use pgferry.Prelude.{
  ℕ, String, ◌≡◌, refl, ap, ◌∙◌, Option, none, some, List, [], ◌∷◌, ◌++◌, Bool, true, false, arith,
  ◌==◌, if◌then◌else◌, Bool-cases, inl, inr,
}
use pgferry.Prelude.Text.{codes, utf8, replace, strip_prefix}
use pgferry.Pool.{PoolKey}
use pgferry.Metrics.{escape, labels, database_or_empty}

abbrev prepend : ℕ → Option (List ℕ × List ℕ) → Option (List ℕ × List ℕ)
prepend c none = none
prepend c (some (value, rest)) = some (c ∷ value, rest)

-- A label's value as the exposition format reads it, up to the closing quote, and what follows;
-- `escaped` behind a backslash. A line break ends the line, so there is no value then.
unfoldable pub read_value : Bool → List ℕ → Option (List ℕ × List ℕ)
read_value escaped [] = none
read_value true (c ∷ cs) =
    let rest = read_value false cs in prepend (if c == b'n' then b'\n' else c) rest
read_value false (c ∷ cs) =
    let plain = read_value false cs in
    let behind = read_value true cs in
    if c == b'"'
    then some ([], cs)
    else if c == b'\\'
    then behind
    else if c == b'\n'
    then none
    else prepend c plain

-- A label of the given prefix, read off.
unfoldable pub read_label : String → List ℕ → Option (List ℕ × List ℕ)
unfolding strip_prefix read_value
read_label name text = elim (strip_prefix (codes name) text) [
  | none ↦ none
  | some cs ↦ read_value false cs
]

abbrev escape_char : ℕ → List ℕ
escape_char c =
    if c == b'\\'
    then codes "\\\\"
    else if c == b'"'
    then codes "\\\""
    else if c == b'\n'
    then codes "\\n"
    else c ∷ []

escape-cons : (c : ℕ) (cs : List ℕ) → escape (c ∷ cs) ≡ escape_char c ++ escape cs
unfolding escape replace
escape-cons c cs = elim (Bool-cases (c == b'\\')) [
  | inl e ↦ rw e refl
  | inr e ↦ elim (Bool-cases (c == b'"')) [
    | inl f ↦ rw (e, f) refl
    | inr f ↦ elim (Bool-cases (c == b'\n')) [
      | inl g ↦ rw (e, f, g) refl
      | inr g ↦ rw (e, f, g) refl
    ]
  ]
]

read_value-escape_char :
    (c : ℕ) (text value rest : List ℕ)
    → read_value false text ≡ some (value, rest)
    → read_value false (escape_char c ++ text) ≡ some (c ∷ value, rest)
unfolding read_value
read_value-escape_char c text value rest h = elim (Bool-cases (c == b'\\')) [
  | inl e ↦ rw (e, h) (ground (arith, e))
  | inr e ↦ elim (Bool-cases (c == b'"')) [
    | inl f ↦ rw (e, f, h) (ground (arith, f))
    | inr f ↦ elim (Bool-cases (c == b'\n')) [
      | inl g ↦ rw (e, f, g, h) (ground (arith, g))
      | inr g ↦ rw (e, f, g, f, e, g, h) refl
    ]
  ]
]

read_value-escape :
    (value rest : List ℕ) → read_value false (escape value ++ (b'"' ∷ rest)) ≡ some (value, rest)
unfolding read_value escape replace
read_value-escape [] rest = refl
read_value-escape (c ∷ cs) rest =
    ap (λ t. read_value false (t ++ (b'"' ∷ rest))) (escape-cons c cs)
    ∙ ap (read_value false) (append_assoc (escape_char c) (escape cs) (b'"' ∷ rest))
    ∙ read_value-escape_char c (escape cs ++ (b'"' ∷ rest)) cs rest (read_value-escape cs rest)

-- The label of a name, in front of `rest`.
abbrev written : String → List ℕ → List ℕ → List ℕ
written name value rest = codes name ++ (escape value ++ (b'"' ∷ rest))

strip_prefix-append : (p cs : List ℕ) → strip_prefix p (p ++ cs) ≡ some cs
unfolding strip_prefix
strip_prefix-append [] cs = refl
strip_prefix-append (c ∷ p) cs = ground (arith, strip_prefix-append p cs)

read_label-written :
    (name : String) (value rest : List ℕ)
    → read_label name (written name value rest) ≡ some (value, rest)
unfolding read_label
read_label-written name value rest =
    let opened = strip_prefix-append (codes name) (escape value ++ (b'"' ∷ rest)) in
    rw (read_label, opened) (read_value-escape value rest)

-- The three labels of a pool's samples, read off one after the other, up to the closing brace.
unfoldable pub read_labels : List ℕ → Option (List ℕ × List ℕ × List ℕ × List ℕ)
unfolding read_label
read_labels text = elim (read_label "route=\"" text) [
  | none ↦ none
  | some (route, rest) ↦ elim (read_label ",user=\"" rest) [
    | none ↦ none
    | some (user, rest) ↦ elim (read_label ",database=\"" rest) [
      | none ↦ none
      | some (database, rest) ↦ some (route, user, database, rest)
    ]
  ]
]

labels-written :
    (key : PoolKey) (rest : List ℕ)
    → labels key ++ rest
      ≡ written "route=\"" (utf8 key.route) (
          written ",user=\""
            (utf8 key.user)
            (written ",database=\"" (utf8 (database_or_empty key.database)) rest))
unfolding labels
labels-written key rest = simp append_assoc

-- The labels that a pool's samples carry give back the route, the user and the database of its key,
-- whatever characters these hold, and what follows the labels on the line is left: quotes, backslashes
-- and line breaks in a name neither end the value nor the line.
pub read_labels-labels :
    (key : PoolKey) (rest : List ℕ)
    → read_labels (labels key ++ rest)
      ≡ some (utf8 key.route, utf8 key.user, utf8 (database_or_empty key.database), rest)
unfolding read_labels
read_labels-labels key rest =
    ap read_labels (labels-written key rest)
    ∙ rw
        (
          read_labels,
          read_label-written "route=\"" (utf8 key.route) (
              written ",user=\"" (utf8 key.user)
                (written ",database=\"" (utf8 (database_or_empty key.database)) rest)),
          read_label-written ",user=\"" (utf8 key.user)
              (written ",database=\"" (utf8 (database_or_empty key.database)) rest),
          read_label-written ",database=\"" (utf8 (database_or_empty key.database)) rest,
        )
        refl
