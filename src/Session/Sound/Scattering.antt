-- ===== src/Session/Sound/Scattering.antt =====
-- A scatter keeps the session's invariant: it may use the session's lease, and never drops it.
use pgferry.Prelude.{
  ℕ, ◌+◌, length, String, ◌≡◌, refl, true, is_some, Option, none, some, List, arith,
}
use pgferry.Wire.{BackendMessage}
use pgferry.Intercept.{ScatterRequest, ScatterLeg}
use pgferry.Pool.{UpstreamLease}
use pgferry.Scatter.{Collected, LegOutcome, run_query_collect}
use pgferry.Scatter.Execute.{
  Gathered, deliver, after_session_leg, run_session_leg, after_pooled_legs, execute_scatter,
  first_unknown, leg_on_lease, all_rows, all_messages, scatter_legs, scatter_valid, partition,
  session_endpoint, run_legs, given_legs, arrange, gather,
}
use pgferry.Session.{Pump, Env}
use pgferry.Session.Custody.Scattering.{execute_scatter-Custody}
use pgferry.Session.Sound.{Inv, Marked}

module _ {Ctx : Type 0} where
  deliver-Marked :
      (request : ScatterRequest) (rows : ℕ) (ms : List BackendMessage) (os : List LegOutcome)
      (p : Pump Ctx)
      → Marked p
      → Marked (deliver request rows ms os p).1
  unfolding deliver
  deliver-Marked request rows ms os p h = ground arith

  after_session_leg-Marked :
      (request : ScatterRequest) (leg : ScatterLeg) (l : UpstreamLease) (r : Collected)
      (os : List LegOutcome) (p : Pump Ctx)
      → Marked p × (is_some p.lease ≡ true)
      → Marked (after_session_leg request leg l r os p).1
  unfolding after_session_leg
  after_session_leg-Marked request leg l r os p h = ground arith

  leg_on_lease-Marked :
      (request : ScatterRequest) (leg : ScatterLeg) (os : List LegOutcome) (p : Pump Ctx)
      → Marked p
      → (l : Option UpstreamLease) → p.lease ≡ l
      → Marked (leg_on_lease request leg l os p).1
  unfolding leg_on_lease
  leg_on_lease-Marked request leg os p h none e =
      deliver-Marked request (all_rows os) (all_messages os) os p h
  leg_on_lease-Marked request leg os p h (some l) e =
      after_session_leg-Marked request leg l (run_query_collect leg.sql l.conn) os p (h, rw e refl)

  run_session_leg-Marked :
      (request : ScatterRequest) (mine : Option ScatterLeg) (os : List LegOutcome) (p : Pump Ctx)
      → Marked p
      → Marked (run_session_leg request mine os p).1
  unfolding run_session_leg
  run_session_leg-Marked request none os p h =
      deliver-Marked request (all_rows os) (all_messages os) os p h
  run_session_leg-Marked request (some leg) os p h =
      leg_on_lease-Marked request leg os p h p.lease refl

  after_pooled_legs-Marked :
      (request : ScatterRequest) (mine : Option ScatterLeg) (g : Gathered) (p : Pump Ctx)
      → Marked p
      → Marked (after_pooled_legs request mine g p).1
  unfolding after_pooled_legs
  after_pooled_legs-Marked request mine g p h =
      ground (arith, run_session_leg-Marked request mine g.complete p h)

  scatter_legs-Marked :
      (env : Env) (request : ScatterRequest) (legs : Option ScatterLeg × List ScatterLeg)
      (p : Pump Ctx)
      → Marked p
      → Marked (scatter_legs env request legs p).1
  unfolding scatter_legs
  scatter_legs-Marked env request (mine, pooled) p h =
      let outcomes = run_legs env p.checkouts pooled in
      after_pooled_legs-Marked request mine
        (gather (arrange env.next_leg (length outcomes) outcomes))
        (record p {
          checkouts = p.checkouts + length pooled;
          granted = given_legs env p.checkouts pooled p.granted;
        })
        h

  scatter_valid-Marked :
      (unknown : Option String) (env : Env) (request : ScatterRequest) (p : Pump Ctx)
      → Marked p
      → Marked (scatter_valid unknown env request p).1
  unfolding scatter_valid
  scatter_valid-Marked (some ep) env request p h = h
  scatter_valid-Marked none env request p h =
      scatter_legs-Marked env request (partition (session_endpoint p) request.legs) p h

  pub execute_scatter-Inv :
      (env : Env) (request : ScatterRequest) (p : Pump Ctx)
      → Inv p
      → Inv (execute_scatter env request p).1
  unfolding execute_scatter
  execute_scatter-Inv env request p (a, b, c) =
      let (a', b') = scatter_valid-Marked (first_unknown env request.legs) env request p (a, b) in
      (a', b', execute_scatter-Custody env request p c)
