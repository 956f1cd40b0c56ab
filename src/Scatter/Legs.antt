-- ===== src/Scatter/Legs.antt =====
-- How `execute_scatter` (crates/pgferry/src/scatter.rs) splits a request into legs, orders their
-- outcomes and tells failed ones apart.
use Prim.Native.Nat.{zero, suc}
use pgferry.Prelude.{
  ℕ, ◌%◌, ◌≡◌, refl, List, [], ◌∷◌, ◌++◌, Bool, true, false, ◌||◌, if◌then◌else◌, arith, is_some,
  is_none, length,
}
use mathlib.Core.List.{Perm}
use mathlib.Core.List.Perm
use pgferry.Scatter.{LegOutcome}
use pgferry.Scatter.Execute.{pick, arrange, gather}

pick-Perm :
    {A : Type 0} (n : ℕ) (x : A) (xs : List A) → Perm (x ∷ xs) ((pick n x xs).0 ∷ (pick n x xs).1)
unfolding pick
pick-Perm n x [] = Perm.rfl
pick-Perm zero x (y ∷ ys) = Perm.rfl
pick-Perm (suc n) x (y ∷ ys) =
    Perm.trans (Perm.cons x (pick-Perm n y ys)) (Perm.swap ((pick n y ys).0) x ((pick n y ys).1))

pub length-pick : {A : Type 0} (n : ℕ) (x : A) (xs : List A) → length (pick n x xs).1 ≡ length xs
unfolding pick
length-pick n x [] = refl
length-pick zero x (y ∷ ys) = refl
length-pick (suc n) x (y ∷ ys) = ground (arith, length-pick n y ys)

arrange-fuel :
    {A : Type 0} (next : ℕ → ℕ) (fuel : ℕ) (xs : List A)
    → length xs ≡ fuel
    → Perm xs (arrange next fuel xs)
unfolding arrange
arrange-fuel next zero [] h = Perm.rfl
arrange-fuel next zero (x ∷ xs) h = absurd (omega arith)
arrange-fuel next (suc fuel) [] h = absurd (omega arith)
arrange-fuel next (suc fuel) (x ∷ xs) h =
    let n = next (suc (length xs)) % suc (length xs) in
    Perm.trans (pick-Perm n x xs) (
      Perm.cons ((pick n x xs).0)
        (arrange-fuel next fuel ((pick n x xs).1) (omega (arith, length-pick n x xs))))

-- In whatever order the legs complete, each leg's outcome is looked at exactly once.
arrange-Perm : {A : Type 0} (next : ℕ → ℕ) (xs : List A) → Perm xs (arrange next (length xs) xs)
arrange-Perm next xs = arrange-fuel next (length xs) xs refl

-- Whether an outcome fails the scatter.
abbrev pub fails : LegOutcome → Bool
fails o = is_some o.error || o.conn_broken

abbrev pub none_fails : List LegOutcome → Bool
none_fails [] = true
none_fails (o ∷ os) = if fails o then false else none_fails os

-- The legs that complete before the first failure, and those from it on, are all the legs in their
-- order; none of the former failed, and the scatter reports an error exactly when some leg failed.
gather-splits :
    (os : List LegOutcome)
    → let g = gather os in
      (g.complete ++ g.lost ≡ os)
      × (none_fails g.complete ≡ true)
      × (is_none g.error ≡ none_fails os)
unfolding gather
gather-splits [] = (refl, refl, refl)
gather-splits (o ∷ os) = let (a, b, c) = gather-splits os in ground arith
