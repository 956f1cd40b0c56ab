-- ===== src/Session/Custody/Scattering.antt =====
-- A scatter (crates/pgferry/src/scatter.rs) keeps the account of the session's leases: the session's
-- own stays, and those of the pooled legs are given up, however it ends.
use pgferry.Prelude.{
  ℕ, ◌+◌, ◌≡◌, refl, ap, length, String, Option, none, some, List, [], ◌∷◌, ◌++◌, arith,
}
use pgferry.Wire.{ErrorInfo, BackendMessage}
use pgferry.Intercept.{ScatterRequest, ScatterLeg}
use pgferry.Pool.{UpstreamLease}
use pgferry.Scatter.{Collected, LegOutcome, run_query_collect}
use pgferry.Scatter.Execute.{
  deliver, after_session_leg, run_session_leg, after_pooled_legs, execute_scatter, first_unknown,
  leg_on_lease, all_rows, all_messages, scatter_legs, scatter_valid, partition, session_endpoint,
  run_legs, given_legs, arrange, gather, drop_left, detach_left, for_each, release_lost,
  released_too,
}
use pgferry.Session.{Release, Pump, Env}
use pgferry.Session.Custody.{weight, weight_held, weight_released, weight_released-append, Custody}
use pgferry.Session.Custody.Legs.{
  AllAccounted, weight_taken, run_legs-Accounted, run_legs-takes, arrange-Accounted, arrange-takes,
}
use pgferry.Session.Custody.Legs.Gathered.{
  GivesUp, detach_left-GivesUp, drop_left-GivesUp, gather-takes, gather_loses_none,
}

abbrev weight_left : (ℕ → ℕ) → List LegOutcome → ℕ
weight_left v [] = 0
weight_left v (o ∷ os) = weight_held v o.lease + weight_left v os

for_each-left :
    (v : ℕ → ℕ) (f : LegOutcome → List Release) (os : List LegOutcome)
    → GivesUp v f
    → weight_released v (for_each f os) ≡ weight_left v os
unfolding for_each
for_each-left v f [] g = refl
for_each-left v f (o ∷ os) g =
    omega (arith, weight_released-append v (f o) (for_each f os), g o, for_each-left v f os g)

-- The legs that completed still hold their leases.
abbrev Owing : {Ctx : Type 0} → List LegOutcome → Pump Ctx → Type 0
Owing os p =
    (v : ℕ → ℕ)
    → weight_released v p.released + weight_held v p.lease + weight_left v os ≡ weight v p.granted

gives_up :
    (v : ℕ → ℕ) (f : LegOutcome → List Release) (os : List LegOutcome) (rs : List Release)
    → GivesUp v f
    → weight_released v (for_each f os ++ rs) ≡ weight_left v os + weight_released v rs
gives_up v f os rs g =
    omega (arith, weight_released-append v (for_each f os) rs, for_each-left v f os g)

module _ {Ctx : Type 0} where
  deliver-Custody :
      (request : ScatterRequest) (rows : ℕ) (ms : List BackendMessage) (os : List LegOutcome)
      (p : Pump Ctx)
      → Owing os p
      → Custody (deliver request rows ms os p).1
  unfolding deliver
  deliver-Custody request rows ms os p h v = ground (
    arith,
    h v,
    gives_up v detach_left os p.released (detach_left-GivesUp v),
    gives_up v drop_left os p.released (drop_left-GivesUp v),
  )

  after_session_leg-Custody :
      (request : ScatterRequest) (leg : ScatterLeg) (l : UpstreamLease) (r : Collected)
      (os : List LegOutcome) (p : Pump Ctx)
      → p.lease ≡ some l
      → Owing os p
      → Custody (after_session_leg request leg l r os p).1
  unfolding after_session_leg
  after_session_leg-Custody request leg l r os p e h v =
      let p' = record p { lease = some (record l { conn = r.conn }) } in
      let owing : Owing os p' = λ w. ground (arith, h w, e) in
      ground (
        arith,
        owing v,
        gives_up v detach_left os p.released (detach_left-GivesUp v),
        gives_up v drop_left os p.released (drop_left-GivesUp v),
        deliver-Custody request _ _ os p' owing v,
      )

  leg_on_lease-Custody :
      (request : ScatterRequest) (leg : ScatterLeg) (os : List LegOutcome) (p : Pump Ctx)
      → Owing os p
      → (l : Option UpstreamLease) → p.lease ≡ l
      → Custody (leg_on_lease request leg l os p).1
  unfolding leg_on_lease
  leg_on_lease-Custody request leg os p h none e =
      deliver-Custody request (all_rows os) (all_messages os) os p h
  leg_on_lease-Custody request leg os p h (some l) e =
      after_session_leg-Custody request leg l (run_query_collect leg.sql l.conn) os p e h

  run_session_leg-Custody :
      (request : ScatterRequest) (mine : Option ScatterLeg) (os : List LegOutcome) (p : Pump Ctx)
      → Owing os p
      → Custody (run_session_leg request mine os p).1
  unfolding run_session_leg
  run_session_leg-Custody request none os p h =
      deliver-Custody request (all_rows os) (all_messages os) os p h
  run_session_leg-Custody request (some leg) os p h =
      leg_on_lease-Custody request leg os p h p.lease refl

  -- All the legs' leases are still to be given up.
  abbrev Taken : List LegOutcome → Pump Ctx → Type 0
  Taken os p =
      (v : ℕ → ℕ)
      → weight_released v p.released + weight_held v p.lease + weight_taken v os
        ≡ weight v p.granted

  lost_too :
      (os : List LegOutcome) (p : Pump Ctx)
      → AllAccounted os
      → Taken os p
      → Custody (
          released_too
            (for_each detach_left (gather os).complete)
            (released_too (release_lost (gather os).lost) p))
  lost_too os p a h v =
      let g = gather os in
      omega (
        arith,
        h v,
        weight_released-append v (for_each detach_left g.complete)
            (release_lost g.lost ++ p.released),
        weight_released-append v (release_lost g.lost) p.released,
        gather-takes v detach_left os (detach_left-GivesUp v) a,
      )

  complete-Owing :
      (os : List LegOutcome) (p : Pump Ctx)
      → AllAccounted os
      → (gather os).error ≡ none
      → Taken os p
      → Owing (gather os).complete p
  unfolding release_lost
  complete-Owing os p a e h v =
      let g = gather os in
      let none_lost : weight_released v (release_lost g.lost) ≡ 0 =
        ap (λ lost. weight_released v (release_lost lost)) (gather_loses_none os e) in
      omega (
        arith,
        h v,
        none_lost,
        for_each-left v drop_left g.complete (drop_left-GivesUp v),
        gather-takes v drop_left os (drop_left-GivesUp v) a,
      )

  after_pooled_legs-Custody :
      (request : ScatterRequest) (mine : Option ScatterLeg) (os : List LegOutcome) (p : Pump Ctx)
      → AllAccounted os
      → Taken os p
      → (e : Option ErrorInfo) → (gather os).error ≡ e
      → Custody (after_pooled_legs request mine (gather os) p).1
  unfolding after_pooled_legs
  after_pooled_legs-Custody request mine os p a h none e =
      rw e (run_session_leg-Custody request mine (gather os).complete p (complete-Owing os p a e h))
  after_pooled_legs-Custody request mine os p a h (some info) e = rw e (lost_too os p a h)

  scatter_legs-Custody :
      (env : Env) (request : ScatterRequest) (legs : Option ScatterLeg × List ScatterLeg)
      (p : Pump Ctx)
      → Custody p
      → Custody (scatter_legs env request legs p).1
  unfolding scatter_legs
  scatter_legs-Custody env request (mine, pooled) p h =
      let outcomes = run_legs env p.checkouts pooled in
      let os = arrange env.next_leg (length outcomes) outcomes in
      after_pooled_legs-Custody request mine os
        (record p {
          checkouts = p.checkouts + length pooled;
          granted = given_legs env p.checkouts pooled p.granted;
        })
        (arrange-Accounted env.next_leg (length outcomes) outcomes
          (run_legs-Accounted env p.checkouts pooled))
        (λ v. omega (
          arith,
          h v,
          arrange-takes v env.next_leg (length outcomes) outcomes refl,
          run_legs-takes env v p.checkouts pooled p.granted,
        ))
        (gather os).error refl

  scatter_valid-Custody :
      (unknown : Option String) (env : Env) (request : ScatterRequest) (p : Pump Ctx)
      → Custody p
      → Custody (scatter_valid unknown env request p).1
  unfolding scatter_valid
  scatter_valid-Custody (some ep) env request p h = h
  scatter_valid-Custody none env request p h =
      scatter_legs-Custody env request (partition (session_endpoint p) request.legs) p h

  pub execute_scatter-Custody :
      (env : Env) (request : ScatterRequest) (p : Pump Ctx)
      → Custody p
      → Custody (execute_scatter env request p).1
  unfolding execute_scatter
  execute_scatter-Custody env request p h =
      scatter_valid-Custody (first_unknown env request.legs) env request p h
