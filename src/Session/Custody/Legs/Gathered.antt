-- ===== src/Session/Custody/Legs/Gathered.antt =====
-- The leases of pooled legs as `execute_scatter` (crates/pgferry/src/scatter.rs) gathers them: those of
-- the legs that completed, and those that are lost with the first failure.
use pgferry.Prelude.{
  ℕ, ◌+◌, ◌≡◌, refl, none, List, [], ◌∷◌, false, ◌||◌, arith, is_some, Bool-cases, inl, inr,
}
use pgferry.Session.{Release}
use pgferry.Session.Custody.{weight_held, weight_released, weight_released-append}
use pgferry.Scatter.{LegOutcome}
use pgferry.Scatter.Execute.{
  gather, release_failed, release_lost, drop_taken, drop_left, detach_left, for_each,
}
use pgferry.Session.Custody.Legs.{Accounted, AllAccounted, weight_taken}

module _ (v : ℕ → ℕ) where
  -- What is done with the lease of a leg that completed gives that lease up.
  abbrev pub GivesUp : (LegOutcome → List Release) → Type 0
  GivesUp f = (o : LegOutcome) → weight_released v (f o) ≡ weight_held v o.lease

  pub detach_left-GivesUp : GivesUp detach_left
  detach_left-GivesUp o = ground arith

  pub drop_left-GivesUp : GivesUp drop_left
  drop_left-GivesUp o = ground arith

  release_failed-takes :
      (o : LegOutcome) → Accounted o → weight_released v (release_failed o) ≡ weight_held v o.taken
  unfolding release_failed
  release_failed-takes o a = ground (arith, a v)

  drop_taken-takes :
      (os : List LegOutcome) → weight_released v (for_each drop_taken os) ≡ weight_taken v os
  unfolding for_each
  drop_taken-takes [] = refl
  drop_taken-takes (o ∷ os) =
      ground (
        arith,
        weight_released-append v (drop_taken o) (for_each drop_taken os),
        drop_taken-takes os,
      )

  release_lost-takes :
      (o : LegOutcome) (os : List LegOutcome)
      → Accounted o
      → weight_released v (release_lost (o ∷ os)) ≡ weight_taken v (o ∷ os)
  unfolding release_lost
  release_lost-takes o os a = omega (
    arith,
    weight_released-append v (release_failed o) (for_each drop_taken os),
    release_failed-takes o a,
    drop_taken-takes os,
  )

  keeps_taken :
      (o : LegOutcome)
      → Accounted o
      → is_some o.error || o.conn_broken ≡ false
      → weight_held v o.lease ≡ weight_held v o.taken
  keeps_taken o a e = ground (arith, a v)

  -- The legs that completed before the first failure, and those that are lost with it.
  pub gather-takes :
      (f : LegOutcome → List Release) (os : List LegOutcome)
      → GivesUp f
      → AllAccounted os
      → weight_released v (for_each f (gather os).complete)
          + weight_released v (release_lost (gather os).lost)
        ≡ weight_taken v os
  unfolding gather for_each release_lost
  gather-takes f [] g h = omega arith
  gather-takes f (o ∷ os) g (a, h) = elim (Bool-cases (is_some o.error || o.conn_broken)) [
    | inl e ↦ rw e (omega (arith, release_lost-takes o os a))
    | inr e ↦ rw e (
        omega (
          arith,
          weight_released-append v (f o) (for_each f (gather os).complete),
          g o,
          keeps_taken o a e,
          gather-takes f os g h,
        ))
  ]

pub gather_loses_none : (os : List LegOutcome) → (gather os).error ≡ none → (gather os).lost ≡ []
unfolding gather
gather_loses_none [] e = refl
gather_loses_none (o ∷ os) e = ground (arith, gather_loses_none os)
