-- ===== src/Routing/Kill.antt =====
-- What two failures in a row do to the group (crates/pgferry/src/routing.rs) of a threshold of two.
use pgferry.Prelude.{
  ℕ, ◌<◌, ◌≡◌, sym, ap, ◌∙◌, ◌⊎◌, inl, inr, String, some, List, [], ◌∷◌, ◌++◌, true, false, arith,
  lookup, lookup-insert, str_eq, eq_iff, Bool-cases, subst, if◌then◌else◌,
}
use pgferry.Config.{EndpointConfig}
use mathlib.Core.List.{append_assoc}
use pgferry.Routing
use pgferry.Routing.{
  ids_of, all_alive, from_endpoints, EndpointGroup, alive, dead, is_alive, is_alive_at,
  report_failure, failed_once,
}
use pgferry.Routing.Failover.{AllDead, is_alive-dead}

pub lookup-report_failure :
    (now : ℕ) (x y : String) (g : EndpointGroup)
    → lookup y (report_failure now x g).health ≡ (
        if str_eq y x
        then some (failed_once g.failure_threshold now (lookup x g.health))
        else lookup y g.health)
unfolding report_failure
lookup-report_failure now x y g = lookup-insert x y _ g.health

module _ (now : ℕ) (x : String) (g : EndpointGroup) (fresh : lookup x g.health ≡ some (alive 0))
    (two : g.failure_threshold ≡ 2) where
  abbrev once : EndpointGroup
  once = report_failure now x g

  abbrev twice : EndpointGroup
  twice = report_failure now x once

  pub lookup-once : lookup x once.health ≡ some (alive 1)
  unfolding failed_once
  lookup-once = ground (arith, lookup-report_failure now x x g, eq_iff x x)

  pub lookup-twice : lookup x twice.health ≡ some (dead now)
  unfolding failed_once report_failure
  lookup-twice = ground (arith, lookup-report_failure now x x once, eq_iff x x, lookup-once)

  pub once-others : (y : String) → str_eq y x ≡ false → lookup y once.health ≡ lookup y g.health
  once-others y ne = ground (arith, lookup-report_failure now x y g)

  pub twice-others : (y : String) → str_eq y x ≡ false → lookup y twice.health ≡ lookup y g.health
  twice-others y ne = ground (arith, lookup-report_failure now x y once, once-others y)

-- Dead since this instant, or without a failure.
abbrev pub Down : ℕ → EndpointGroup → EndpointConfig → Type 0
Down now g e = lookup e.id g.health ≡ some (dead now)

abbrev pub Fresh : EndpointGroup → EndpointConfig → Type 0
Fresh g e = lookup e.id g.health ≡ some (alive 0)

abbrev pub AllDown : ℕ → EndpointGroup → List EndpointConfig → Type 0
AllDown now g [] = Unit {0}
AllDown now g (e ∷ es) = Down now g e × AllDown now g es

abbrev pub AllKnown : ℕ → EndpointGroup → List EndpointConfig → Type 0
AllKnown now g [] = Unit {0}
AllKnown now g (e ∷ es) = (Fresh g e ⊎ Down now g e) × AllKnown now g es

pub AllDown-dead :
    (now : ℕ) (g : EndpointGroup) (es : List EndpointConfig)
    → 0 < g.revive_after
    → AllDown now g es
    → AllDead now g es
AllDown-dead now g [] r d = tt
AllDown-dead now g (e ∷ es) r (d, ds) =
    (ground (arith, is_alive-dead now now e.id g d), AllDown-dead now g es r ds)

pub AllDown-snoc :
    (now : ℕ) (g : EndpointGroup) (es : List EndpointConfig) (x : EndpointConfig)
    → AllDown now g es
    → Down now g x
    → AllDown now g (es ++ x ∷ [])
AllDown-snoc now g [] x d dx = (dx, tt)
AllDown-snoc now g (e ∷ es) x (d, ds) dx = (d, AllDown-snoc now g es x ds dx)

pub Fresh-alive :
    (now : ℕ) (g : EndpointGroup) (e : EndpointConfig) → Fresh g e → is_alive now e.id g ≡ true
unfolding is_alive is_alive_at
Fresh-alive now g e f = ap (is_alive_at g.revive_after now) f

-- A new group has no failure of any of its endpoints.
Fresh-head :
    (above : List EndpointConfig) (e : EndpointConfig) (below : List EndpointConfig)
    → Fresh (from_endpoints (above ++ e ∷ below)) e
unfolding from_endpoints Routing.new
Fresh-head [] e below =
    ground (arith, lookup-insert e.id e.id (alive 0) (all_alive (ids_of below)), eq_iff e.id e.id)
Fresh-head (x ∷ above) e below = ground (
  arith,
  lookup-insert x.id e.id (alive 0) (all_alive (ids_of (above ++ e ∷ below))),
  Fresh-head above e below,
)

pub Fresh-new :
    (above : List EndpointConfig) (e : EndpointConfig) (below es : List EndpointConfig)
    → es ≡ above ++ e ∷ below
    → Fresh (from_endpoints es) e
Fresh-new above e below es h =
    subst (λ l. Fresh (from_endpoints l) e) (sym h) (Fresh-head above e below)

pub AllKnown-new :
    (now : ℕ) (above some_of below es : List EndpointConfig)
    → es ≡ above ++ (some_of ++ below)
    → AllKnown now (from_endpoints es) some_of
AllKnown-new now above [] below es h = tt
AllKnown-new now above (x ∷ some_of) below es h = (
  inl (Fresh-new above x (some_of ++ below) es h),
  AllKnown-new now (above ++ x ∷ []) some_of below es
      (h ∙ sym (append_assoc above (x ∷ []) (some_of ++ below))),
)

module _ (now : ℕ) (x : EndpointConfig) (g : EndpointGroup) (fresh : Fresh g x)
    (two : g.failure_threshold ≡ 2) where
  -- Another endpoint's state, after one failure of `x` and after two.
  pub Down-other : (y : EndpointConfig) → Down now g y → str_eq y.id x.id ≡ false
  Down-other y d = elim (Bool-cases (str_eq y.id x.id)) [
    | inl same ↦
        let clash : some (dead now) ≡ some (alive 0) =
          sym d ∙ ap (λ k. lookup k g.health) ((eq_iff y.id x.id).0 same) ∙ fresh in
        cc clash
    | inr other ↦ other
  ]

  pub AllDown-once :
      (es : List EndpointConfig) → AllDown now g es → AllDown now (report_failure now x.id g) es
  AllDown-once [] d = tt
  AllDown-once (y ∷ es) (d, ds) =
      (once-others now x.id g fresh two y.id (Down-other y d) ∙ d, AllDown-once es ds)

  pub AllDown-twice :
      (es : List EndpointConfig)
      → AllDown now g es
      → AllDown now (report_failure now x.id (report_failure now x.id g)) es
  AllDown-twice [] d = tt
  AllDown-twice (y ∷ es) (d, ds) =
      (twice-others now x.id g fresh two y.id (Down-other y d) ∙ d, AllDown-twice es ds)

  pub AllKnown-twice :
      (es : List EndpointConfig)
      → AllKnown now g es
      → AllKnown now (report_failure now x.id (report_failure now x.id g)) es
  AllKnown-twice [] k = tt
  AllKnown-twice (y ∷ es) (k, ks) = (known (Bool-cases (str_eq y.id x.id)) k, AllKnown-twice es ks)
    where
      g'' : EndpointGroup
      g'' = report_failure now x.id (report_failure now x.id g)

      known :
          (str_eq y.id x.id ≡ true) ⊎ (str_eq y.id x.id ≡ false)
          → Fresh g y ⊎ Down now g y
          → Fresh g'' y ⊎ Down now g'' y
      known (inl same) k = inr (
          ap (λ i. lookup i g''.health) ((eq_iff y.id x.id).0 same)
          ∙ lookup-twice now x.id g fresh two)
      known (inr other) (inl f) = inl (twice-others now x.id g fresh two y.id other ∙ f)
      known (inr other) (inr d) = inr (twice-others now x.id g fresh two y.id other ∙ d)

  pub is_alive-once : is_alive now x.id (report_failure now x.id g) ≡ true
  unfolding is_alive is_alive_at
  is_alive-once =
      ap (is_alive_at (report_failure now x.id g).revive_after now)
        (lookup-once now x.id g fresh two)
