-- ===== src/Prelude/Assoc.antt =====
-- Maps with text keys (`HashMap<String, _>`, `BTreeMap<String, _>`) as association lists.
use Prim.Native.String.{String}
use mathlib.Core.Path.{◌≡◌, refl}
use mathlib.Core.Option.{Option, none, some}
use mathlib.Core.List.{List, [], ◌∷◌}
use native.Mathlib.Omega.{arith}
use text.Mathlib.Text.{◌==◌}
use text.Mathlib.TextEquality.{eq_iff}
use package.pgferry.Prelude.Tests.{if◌then◌else◌}

-- `HashMap::remove`: no entry of the name is left.
unfoldable pub remove {ℓ} :
    {Value : Type ℓ} → String → List (String × Value) → List (String × Value)
remove name [] = []
remove name (entry ∷ rest) =
    let others = remove name rest in if name == entry.0 then others else entry ∷ others

-- `HashMap::insert`: the value of a name that is there is replaced, a new name goes to the end.
unfoldable pub insert {ℓ} :
    {Value : Type ℓ} → String → Value → List (String × Value) → List (String × Value)
insert name new [] = (name, new) ∷ []
insert name new (entry ∷ rest) =
    let others = insert name new rest in
    if name == entry.0 then (name, new) ∷ rest else entry ∷ others

-- `HashMap::get`.
unfoldable pub lookup {ℓ} : {Value : Type ℓ} → String → List (String × Value) → Option Value
lookup name [] = none
lookup name (entry ∷ rest) =
    let found = lookup name rest in if name == entry.0 then some (entry.1) else found

pub lookup-insert {ℓ} :
    {Value : Type ℓ} (written read : String) (new : Value) (entries : List (String × Value))
    → lookup read (insert written new entries)
      ≡ (if read == written then some new else lookup read entries)
unfolding insert lookup
lookup-insert written read new [] = refl
lookup-insert written read new ((other, old) ∷ rest) = ground (
  arith,
  lookup-insert written read new rest,
  eq_iff written other,
  eq_iff read other,
  eq_iff read written,
)
