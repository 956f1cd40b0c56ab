-- ===== src/Prelude/Text.antt =====
-- Text as the list of its code points: what Rust's `str` methods do on it that the program calls.
use Prim.Native.Char.{code}
use Prim.Native.String.{String}
use Prim.Native.Nat.{ℕ, ◌+◌, ◌-◌, ◌/◌, ◌%◌, ◌≤◌}
use mathlib.Core.Path.{◌≡◌, ap}
use mathlib.Core.Bool.{Bool, true, false, ◌&&◌, ◌||◌}
use mathlib.Core.Option.{Option, none, some}
use mathlib.Core.List.{List, [], ◌∷◌, ◌++◌}
use native.Mathlib.Omega.{arith}
use package.pgferry.Prelude.Tests.{ltb, leb, ◌==◌, if◌then◌else◌, length}

abbrev pub codes : String → List ℕ
codes String.[] = []
codes (String.◌∷◌ c s) = code c ∷ codes s

-- The bytes of a text in UTF-8.
abbrev utf8_char : ℕ → List ℕ
utf8_char c =
    if ltb c 0x80
    then c ∷ []
    else if ltb c 0x800
    then (0xC0 + c / 64) ∷ (0x80 + c % 64) ∷ []
    else if ltb c 0x10000
    then (0xE0 + c / 4096) ∷ (0x80 + c / 64 % 64) ∷ (0x80 + c % 64) ∷ []
    else (0xF0 + c / 262144) ∷ (0x80 + c / 4096 % 64) ∷ (0x80 + c / 64 % 64) ∷ (0x80 + c % 64) ∷ []

abbrev pub utf8 : String → List ℕ
utf8 String.[] = []
utf8 (String.◌∷◌ c s) = utf8_char (code c) ++ utf8 s

-- The pieces of a `format!`, in order.
abbrev pub join : List (List ℕ) → List ℕ
join [] = []
join (piece ∷ pieces) = piece ++ join pieces

-- `replace` of one character.
unfoldable pub replace : ℕ → List ℕ → List ℕ → List ℕ
replace from to [] = []
replace from to (c ∷ cs) =
    let rest = replace from to cs in if c == from then to ++ rest else c ∷ rest

-- `lines().next().unwrap_or_default()`.
unfoldable pub first_line : List ℕ → List ℕ
first_line [] = []
first_line (c ∷ cs) =
    let rest = first_line cs in
    if c == b'\n'
    then []
    else elim cs [ [] ↦ c ∷ rest | d ∷ _ ↦ if c == b'\r' && d == b'\n' then [] else c ∷ rest ]

-- `char::is_whitespace`: Unicode's White_Space.
abbrev pub is_whitespace : ℕ → Bool
is_whitespace c =
    (leb 9 c && leb c 13)
    || c == 32
    || c == 0x85
    || c == 0xA0
    || c == 0x1680
    || (leb 0x2000 c && leb c 0x200A)
    || c == 0x2028
    || c == 0x2029
    || c == 0x202F
    || c == 0x205F
    || c == 0x3000

-- `split_whitespace`, behind a word that has begun.
unfoldable pub words : List ℕ → List ℕ → List (List ℕ)
words [] [] = []
words (b ∷ begun) [] = (b ∷ begun) ∷ []
words begun (c ∷ cs) =
    let next = words [] cs in
    let longer = words (begun ++ c ∷ []) cs in
    if is_whitespace c then elim begun [ [] ↦ next | b ∷ bs ↦ (b ∷ bs) ∷ next ] else longer

unfoldable pub trim_start : List ℕ → List ℕ
trim_start [] = []
trim_start (c ∷ cs) = let rest = trim_start cs in if is_whitespace c then rest else c ∷ cs

-- `trim_end_matches` of a test.
unfoldable pub trim_end_by : (ℕ → Bool) → List ℕ → List ℕ
trim_end_by test [] = []
trim_end_by test (c ∷ cs) = elim (trim_end_by test cs) [
  | [] ↦ if test c then [] else c ∷ []
  | d ∷ ds ↦ c ∷ d ∷ ds
]

unfoldable pub trim : List ℕ → List ℕ
unfolding trim_start trim_end_by
trim cs = trim_end_by is_whitespace (trim_start cs)

unfoldable pub strip_prefix : List ℕ → List ℕ → Option (List ℕ)
strip_prefix [] cs = some cs
strip_prefix (p ∷ ps) [] = none
strip_prefix (p ∷ ps) (c ∷ cs) = let rest = strip_prefix ps cs in if p == c then rest else none

-- `split_once(pattern).map(|(_, rest)| rest)`: what follows the first occurrence.
unfoldable pub after_first : List ℕ → List ℕ → Option (List ℕ)
unfolding strip_prefix
after_first pattern [] = strip_prefix pattern []
after_first pattern (c ∷ cs) =
    let later = after_first pattern cs in
    elim (strip_prefix pattern (c ∷ cs)) [ some rest ↦ some rest | none ↦ later ]

unfoldable pub equal : List ℕ → List ℕ → Bool
equal [] [] = true
equal (c ∷ cs) (d ∷ ds) = c == d && equal cs ds
equal _ _ = false

-- ASCII letters only, as `to_ascii_uppercase` does.
abbrev pub upper : ℕ → ℕ
upper c = if leb b'a' c && leb c b'z' then c - 32 else c

unfoldable pub to_ascii_uppercase : List ℕ → List ℕ
to_ascii_uppercase [] = []
to_ascii_uppercase (c ∷ cs) = upper c ∷ to_ascii_uppercase cs

pub length-strip_prefix :
    (p cs rest : List ℕ) → strip_prefix p cs ≡ some rest → length p + length rest ≡ length cs
unfolding strip_prefix
length-strip_prefix [] cs rest h =
    let same : cs ≡ rest = cc h in omega (arith, ap (length {A = ℕ}) same)
length-strip_prefix (p ∷ ps) [] rest h = cc
length-strip_prefix (p ∷ ps) (c ∷ cs) rest h = ground (arith, length-strip_prefix ps cs rest)

pub length-after_first :
    (p cs rest : List ℕ) → after_first p cs ≡ some rest → length p + length rest ≤ length cs
unfolding after_first
length-after_first p [] rest h = omega (arith, length-strip_prefix p [] rest h)
length-after_first p (c ∷ cs) rest h =
    ground (arith, length-strip_prefix p (c ∷ cs) rest, length-after_first p cs rest)
