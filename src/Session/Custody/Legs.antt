-- ===== src/Session/Custody/Legs.antt =====
-- The leases of the pooled legs of a scatter (crates/pgferry/src/scatter.rs): whatever the order in
-- which the legs complete and wherever the first one fails, each lease that was checked out for a leg
-- is given up once.
pub mod Gathered
use Prim.Native.Nat.{zero, suc}
use pgferry.Prelude.{
  ℕ, ◌+◌, ◌%◌, ◌≡◌, refl, ◌∙◌, ap, String, Option, none, some, List, [], ◌∷◌, ◌++◌, Bool, true,
  false, ◌||◌, arith, is_some, is_none, length, Bool-cases, inl, inr,
}
use pgferry.Pool.{UpstreamLease}
use pgferry.Intercept.{ScatterLeg}
use pgferry.Session.{Release, Checkout, leased, refused, given, Env}
use pgferry.Session.Custody.{
  weight, weight_held, weight_of, weight_released, weight_released-append,
}
use pgferry.Scatter.{
  LegOutcome, Collected, leg_synced, run_leg_pooled, outcome_of, run_query_collect,
}
use pgferry.Scatter.Legs.{length-pick}
use pgferry.Scatter.Execute.{
  run_legs, given_legs, pick, arrange, gather, release_failed, release_lost, drop_taken, drop_left,
  detach_left, for_each,
}
use pgferry.Pool.Parameters.{sync_startup_parameters}
use pgferry.Conn.{Conn}

-- A leg that has a lease left has the one that was checked out for it; one that has none is broken, or
-- was refused one and has an error.
abbrev pub Accounted : LegOutcome → Type 0
Accounted o =
    (v : ℕ → ℕ)
    → elim o.lease [ some l ↦ v l.created_at ≡ weight_held v o.taken | none ↦ o.conn_broken ≡ true ]

abbrev pub AllAccounted : List LegOutcome → Type 0
AllAccounted [] = Unit {0}
AllAccounted (o ∷ os) = Accounted o × AllAccounted os

abbrev pub weight_taken : (ℕ → ℕ) → List LegOutcome → ℕ
weight_taken v [] = 0
weight_taken v (o ∷ os) = weight_held v o.taken + weight_taken v os

outcome_of-Accounted :
    (endpoint : String) (l : UpstreamLease) (r : Collected) → Accounted (outcome_of endpoint l r)
unfolding outcome_of
outcome_of-Accounted endpoint l r v = ground arith

leg_synced-Accounted :
    (endpoint sql : String) (l : UpstreamLease) (c : Option Conn)
    → Accounted (leg_synced endpoint sql l c)
unfolding leg_synced
leg_synced-Accounted endpoint sql l none = λ v. refl
leg_synced-Accounted endpoint sql l (some c) =
    outcome_of-Accounted endpoint l (run_query_collect sql c)

leg_synced-takes :
    (endpoint sql : String) (l : UpstreamLease) (c : Option Conn)
    → (leg_synced endpoint sql l c).taken ≡ some l
unfolding leg_synced outcome_of
leg_synced-takes endpoint sql l none = refl
leg_synced-takes endpoint sql l (some c) = refl

module _ (env : Env) where
  leg_Accounted :
      (endpoint sql : String) (c : Checkout)
      → Accounted (run_leg_pooled env.simple_query env.startup_parameters endpoint sql c)
  unfolding run_leg_pooled
  leg_Accounted endpoint sql (refused e) = λ v. refl
  leg_Accounted endpoint sql (leased l) = leg_synced-Accounted endpoint sql l _

  -- The lease that a leg was given is the one that it takes.
  leg_takes :
      (v : ℕ → ℕ) (endpoint sql : String) (c : Checkout)
      → weight_held v (run_leg_pooled env.simple_query env.startup_parameters endpoint sql c).taken
        ≡ weight v (given c [])
  unfolding run_leg_pooled
  leg_takes v endpoint sql (refused e) = refl
  leg_takes v endpoint sql (leased l) =
      let whole : v l.created_at ≡ v l.created_at + 0 = omega arith in
      ap (weight_held v) (leg_synced-takes endpoint sql l _) ∙ whole

  pub run_legs-Accounted : (n : ℕ) (legs : List ScatterLeg) → AllAccounted (run_legs env n legs)
  unfolding run_legs
  run_legs-Accounted n [] = tt
  run_legs-Accounted n (leg ∷ legs) = (
    leg_Accounted leg.endpoint leg.sql (env.checkout n leg.endpoint),
    run_legs-Accounted (n + 1) legs,
  )

  weight-given :
      (v : ℕ → ℕ) (c : Checkout) (ls : List UpstreamLease)
      → weight v (given c ls) ≡ weight v (given c []) + weight v ls
  weight-given v (leased l) ls = omega arith
  weight-given v (refused e) ls = omega arith

  pub run_legs-takes :
      (v : ℕ → ℕ) (n : ℕ) (legs : List ScatterLeg) (ls : List UpstreamLease)
      → weight v (given_legs env n legs ls) ≡ weight_taken v (run_legs env n legs) + weight v ls
  unfolding run_legs given_legs
  run_legs-takes v n [] ls = omega arith
  run_legs-takes v n (leg ∷ legs) ls = omega (
    arith,
    weight-given v (env.checkout n leg.endpoint) (given_legs env (n + 1) legs ls),
    leg_takes v leg.endpoint leg.sql (env.checkout n leg.endpoint),
    run_legs-takes v (n + 1) legs ls,
  )

pick-Accounted :
    (n : ℕ) (o : LegOutcome) (os : List LegOutcome)
    → AllAccounted (o ∷ os)
    → AllAccounted ((pick n o os).0 ∷ (pick n o os).1)
unfolding pick
pick-Accounted n o [] h = h
pick-Accounted zero o (x ∷ xs) h = h
pick-Accounted (suc n) o (x ∷ xs) (a, h) = let (b, k) = pick-Accounted n x xs h in (b, (a, k))

pick-takes :
    (v : ℕ → ℕ) (n : ℕ) (o : LegOutcome) (os : List LegOutcome)
    → weight_taken v ((pick n o os).0 ∷ (pick n o os).1) ≡ weight_taken v (o ∷ os)
unfolding pick
pick-takes v n o [] = refl
pick-takes v zero o (x ∷ xs) = refl
pick-takes v (suc n) o (x ∷ xs) = omega (arith, pick-takes v n x xs)

-- The order of completion changes none of this.
pub arrange-Accounted :
    (next : ℕ → ℕ) (fuel : ℕ) (os : List LegOutcome)
    → AllAccounted os
    → AllAccounted (arrange next fuel os)
unfolding arrange
arrange-Accounted next zero os h = tt
arrange-Accounted next (suc fuel) [] h = tt
arrange-Accounted next (suc fuel) (o ∷ os) h =
    let n = next (suc (length os)) % suc (length os) in
    let (a, k) = pick-Accounted n o os h in (a, arrange-Accounted next fuel ((pick n o os).1) k)

pub arrange-takes :
    (v : ℕ → ℕ) (next : ℕ → ℕ) (fuel : ℕ) (os : List LegOutcome)
    → length os ≡ fuel
    → weight_taken v (arrange next fuel os) ≡ weight_taken v os
unfolding arrange
arrange-takes v next zero [] h = refl
arrange-takes v next zero (o ∷ os) h = absurd (omega arith)
arrange-takes v next (suc fuel) [] h = absurd (omega arith)
arrange-takes v next (suc fuel) (o ∷ os) h =
    let n = next (suc (length os)) % suc (length os) in
    let rest = arrange-takes v next fuel ((pick n o os).1) (omega (arith, length-pick n o os)) in
    omega (arith, pick-takes v n o os, rest)
