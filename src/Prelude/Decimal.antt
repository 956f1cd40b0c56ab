-- ===== src/Prelude/Decimal.antt =====
-- Decimal numbers as bytes: what Rust's `to_string` and `parse` do for unsigned and 128-bit signed
-- numbers, and `rsplit_once`.
use Prim.Native.Nat.{ℕ, zero, suc, ◌+◌, ◌-◌, ◌*◌, ◌/◌, ◌%◌, ◌<◌}
use mathlib.Core.Path.{◌≡◌, refl, ◌∙◌, ap}
use mathlib.Core.Bool.{Bool, true, false, ◌&&◌}
use mathlib.Core.Option.{Option, none, some}
use mathlib.Core.List.{List, [], ◌∷◌, ◌++◌}
use native.Mathlib.Omega.{arith}
use package.pgferry.Prelude.Tests.{ltb, leb, ◌==◌, if◌then◌else◌}

-- Digits of `n` in front of `acc`; the fuel is above `n`.
unfoldable pub digits : ℕ → ℕ → List ℕ → List ℕ
digits zero n acc = acc
digits (suc fuel) n acc =
    let rest = digits fuel (n / 10) ((48 + n % 10) ∷ acc) in
    if ltb n 10 then (48 + n) ∷ acc else rest

unfoldable pub print : ℕ → List ℕ
unfolding digits
print n = digits (suc n) n []

unfoldable pub value : ℕ → List ℕ → ℕ
value acc [] = acc
value acc (c ∷ cs) = value (acc * 10 + (c - 48)) cs

unfoldable pub all_digits : List ℕ → Bool
all_digits [] = true
all_digits (c ∷ cs) = leb 48 c && (leb c 57 && all_digits cs)

-- Unsigned: at least one digit, digits only, below the bound.
unfoldable pub parse_below : ℕ → List ℕ → Option ℕ
unfolding all_digits value
parse_below bound [] = none
parse_below bound (c ∷ cs) =
    if all_digits (c ∷ cs) && ltb (value 0 (c ∷ cs)) bound then some (value 0 (c ∷ cs)) else none

-- `rsplit_once(' ')`.
unfoldable pub rsplit_space : List ℕ → Option (List ℕ × List ℕ)
rsplit_space [] = none
rsplit_space (c ∷ cs) = elim (rsplit_space cs) [
  | some (head, tail) ↦ some (c ∷ head, tail)
  | none ↦ if c == 32 then some ([], cs) else none
]

digits-append :
    (fuel n : ℕ) (acc rest : List ℕ) → digits fuel n acc ++ rest ≡ digits fuel n (acc ++ rest)
unfolding digits
digits-append zero n acc rest = refl
digits-append (suc fuel) n acc rest =
    ground (arith, digits-append fuel (n / 10) ((48 + n % 10) ∷ acc) rest)

value-digits : (fuel n : ℕ) (acc : List ℕ) → n < fuel → value 0 (digits fuel n acc) ≡ value n acc
unfolding digits value
value-digits zero n acc h = absurd (omega arith)
value-digits (suc fuel) n acc h = ground (arith, value-digits fuel (n / 10) ((48 + n % 10) ∷ acc))

all_digits-digits :
    (fuel n : ℕ) (acc : List ℕ) → all_digits acc ≡ true → all_digits (digits fuel n acc) ≡ true
unfolding digits all_digits
all_digits-digits zero n acc h = h
all_digits-digits (suc fuel) n acc h =
    ground (arith, all_digits-digits fuel (n / 10) ((48 + n % 10) ∷ acc))

pub value-print : (n : ℕ) → value 0 (print n) ≡ n
unfolding print value
value-print n = value-digits (suc n) n [] (omega arith)

pub all_digits-print : (n : ℕ) → all_digits (print n) ≡ true
unfolding print all_digits
all_digits-print n = all_digits-digits (suc n) n [] refl

-- A text that is not empty.
abbrev pub IsCons : List ℕ → Type 0
IsCons cs = (c : ℕ) × (rest : List ℕ) × (cs ≡ c ∷ rest)

digits-IsCons : (fuel n c : ℕ) (acc : List ℕ) → IsCons (digits fuel n (c ∷ acc))
unfolding digits
digits-IsCons zero n c acc = (c, acc, refl)
digits-IsCons (suc fuel) n c acc =
    elim (ltb n 10)
      as (λ b.
        IsCons (if b then (48 + n) ∷ c ∷ acc else digits fuel (n / 10) ((48 + n % 10) ∷ c ∷ acc))) [
          | true ↦ (48 + n, c ∷ acc, refl)
          | false ↦ digits-IsCons fuel (n / 10) (48 + n % 10) (c ∷ acc)
        ]

pub print-IsCons : (n : ℕ) → IsCons (print n)
unfolding print digits
print-IsCons n =
    elim (ltb n 10)
      as (λ b. IsCons (if b then (48 + n) ∷ [] else digits n (n / 10) ((48 + n % 10) ∷ []))) [
        | true ↦ (48 + n, [], refl)
        | false ↦ digits-IsCons n (n / 10) (48 + n % 10) []
      ]

parse_below-value :
    (bound : ℕ) (cs : List ℕ)
    → IsCons cs
    → all_digits cs ≡ true
    → value 0 cs < bound
    → parse_below bound cs ≡ some (value 0 cs)
unfolding parse_below
parse_below-value bound [] (c, rest, e) d h = cc
parse_below-value bound (c ∷ cs) k d h = ground arith

pub parse_below-print : (bound n : ℕ) → n < bound → parse_below bound (print n) ≡ some n
parse_below-print bound n h =
    parse_below-value bound (print n) (print-IsCons n) (all_digits-print n)
      (omega (arith, value-print n))
    ∙ ap some (value-print n)

rsplit_space-digits : (ds : List ℕ) → all_digits ds ≡ true → rsplit_space ds ≡ none
unfolding rsplit_space all_digits
rsplit_space-digits [] d = refl
rsplit_space-digits (c ∷ cs) d = ground (arith, rsplit_space-digits cs)

-- The last space is the one before a run of digits that ends the text.
pub rsplit_space-append :
    (head ds : List ℕ) → all_digits ds ≡ true → rsplit_space (head ++ 32 ∷ ds) ≡ some (head, ds)
unfolding rsplit_space
rsplit_space-append [] ds d = ground (arith, rsplit_space-digits ds d)
rsplit_space-append (c ∷ head) ds d = ground (arith, rsplit_space-append head ds d)
