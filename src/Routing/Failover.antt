-- ===== src/Routing/Failover.antt =====
-- When an `EndpointGroup` (crates/pgferry/src/routing.rs) takes an endpoint for dead, and which
-- endpoint it selects.
use Prim.Native.Nat.{zero, suc}
use pgferry.Prelude.{
  ℕ, ◌+◌, ◌-◌, ◌^◌, ◌<◌, ◌≡◌, refl, ◌∙◌, ap, String, some, List, [], ◌∷◌, ◌++◌, true, false, leb,
  arith, lookup, lookup-insert, eq_iff,
}
use pgferry.Config.{EndpointConfig}
use pgferry.Routing.{
  alive, dead, EndpointGroup, is_alive, is_alive_at, failed_once, report_failure,
  select_first_alive,
}

-- Failures in a row, all at one instant.
unfoldable pub fail_times : ℕ → ℕ → String → EndpointGroup → EndpointGroup
fail_times zero now id g = g
fail_times (suc n) now id g = fail_times n now id (report_failure now id g)

lookup-failure :
    (now : ℕ) (id : String) (g : EndpointGroup)
    → lookup id (report_failure now id g).health
      ≡ some (failed_once g.failure_threshold now (lookup id g.health))
unfolding report_failure
lookup-failure now id g = ground (
  arith,
  lookup-insert id id (failed_once g.failure_threshold now (lookup id g.health)) g.health,
  eq_iff id id,
)

failed_once-below :
    (threshold now f : ℕ)
    → f + 1 < threshold
    → threshold < 2 ^ 32
    → failed_once threshold now (some (alive f)) ≡ alive (f + 1)
unfolding failed_once
failed_once-below threshold now f h b = ground arith

failed_once-reached :
    (threshold now f : ℕ)
    → f + 1 ≡ threshold
    → threshold < 2 ^ 32
    → failed_once threshold now (some (alive f)) ≡ dead now
unfolding failed_once
failed_once-reached threshold now f h b = ground arith

fail_times-reached :
    (n now f : ℕ) (id : String) (g : EndpointGroup)
    → lookup id g.health ≡ some (alive f)
    → f + suc n ≡ g.failure_threshold
    → g.failure_threshold < 2 ^ 32
    → lookup id (fail_times (suc n) now id g).health ≡ some (dead now)
unfolding fail_times report_failure
fail_times-reached zero now f id g e h b =
    lookup-failure now id g
    ∙ ap some (
        ap (failed_once g.failure_threshold now) e
        ∙ failed_once-reached g.failure_threshold now f (omega (arith, h)) b)
fail_times-reached (suc n) now f id g e h b =
    fail_times-reached n now (f + 1) id (report_failure now id g)
      (lookup-failure now id g
        ∙ ap some (
            ap (failed_once g.failure_threshold now) e
            ∙ failed_once-below g.failure_threshold now f (omega (arith, h)) b))
      (omega (arith, h)) b

pub is_alive-dead :
    (since now : ℕ) (id : String) (g : EndpointGroup)
    → lookup id g.health ≡ some (dead since)
    → is_alive now id g ≡ leb g.revive_after (now - since)
unfolding is_alive is_alive_at
is_alive-dead since now id g e = ap (is_alive_at g.revive_after now) e

fail_times-keeps :
    (n now : ℕ) (id : String) (g : EndpointGroup)
    → (fail_times n now id g).revive_after ≡ g.revive_after
unfolding fail_times report_failure
fail_times-keeps zero now id g = refl
fail_times-keeps (suc n) now id g = fail_times-keeps n now id (report_failure now id g)

-- An endpoint with `f` failures, which is alive, is taken for dead by the failures that bring the
-- count to the threshold (of 32 bits), and counts as alive again once `revive_after` has passed.
fail_times-kills :
    (n now later f : ℕ) (id : String) (g : EndpointGroup)
    → lookup id g.health ≡ some (alive f)
    → f + suc n ≡ g.failure_threshold
    → g.failure_threshold < 2 ^ 32
    → is_alive later id (fail_times (suc n) now id g) ≡ leb g.revive_after (later - now)
fail_times-kills n now later f id g e h b =
    is_alive-dead now later id (fail_times (suc n) now id g) (fail_times-reached n now f id g e h b)
    ∙ ap (λ t. leb t (later - now)) (fail_times-keeps (suc n) now id g)

abbrev pub AllDead : ℕ → EndpointGroup → List EndpointConfig → Type 0
AllDead now g [] = Unit {0}
AllDead now g (e ∷ es) = (is_alive now e.id g ≡ false) × AllDead now g es

-- The endpoint that is selected is the first alive one in the order of the configuration.
pub select_first_alive-first :
    (now : ℕ) (above : List EndpointConfig) (e : EndpointConfig) (below : List EndpointConfig)
    (g : EndpointGroup)
    → AllDead now g above
    → is_alive now e.id g ≡ true
    → select_first_alive now (above ++ e ∷ below) g ≡ some e.id
unfolding select_first_alive
select_first_alive-first now [] e below g d a = rw a refl
select_first_alive-first now (x ∷ above) e below g (d, ds) a =
    rw d (select_first_alive-first now above e below g ds a)
