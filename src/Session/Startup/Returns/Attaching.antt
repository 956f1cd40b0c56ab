-- ===== src/Session/Startup/Returns/Attaching.antt =====
-- The set-up of a session (crates/pgferry/src/session.rs), up to the parameters that its handshake
-- reports, keeps the session's invariant.
use Prim.Native.Nat.{zero, suc}
use pgferry.Prelude.{ℕ, String, Option, none, some, List, [], Bool, true, false, if◌then◌else◌}
use pgferry.Config.{EndpointConfig, endpoint}
use pgferry.Intercept.{Interceptor, RetryDecision}
use pgferry.Pool.{UpstreamLease}
use pgferry.Session.{Pump, Env}
use pgferry.Session.Attach.{attempts}
use pgferry.Session.Effects.{ok, pure, ◌>>◌, dispatch_on_upstream_connected}
use pgferry.Session.Sound.{
  Inv, Inv-local, dispatch_upstream-local, dispatch_on_upstream_error-local,
  dispatch_on_upstream_connected-local,
}
use pgferry.Session.Sound.Attaching.{Attaches, ensure_attached-Attaches}
use pgferry.Session.Sound.Asking.{Keeps}
use pgferry.Session.Startup.{Setup}
use pgferry.Session.Startup.Baseline.{
  answered, again, gave_up, consult_baseline, ask_baseline, baseline_loop, baseline_params_routed,
  baseline_or_fatal, parameters_of_lease, attach_now, server_parameters,
}
use pgferry.Session.Triples.{
  Triple, Triple-pure, Triple-bind, Triple-if, Triple-weaken, Post, Triple-send_or_ignore,
}

module _ {Ctx : Type 0} (ic : Interceptor Ctx) (env : Env) (setup : Setup) where
  consult_baseline-Keeps : (id : String) → Keeps (consult_baseline ic env setup id)
  unfolding consult_baseline
  consult_baseline-Keeps id =
      Triple-bind (dispatch_on_upstream_error-local ic Inv-local _) elim [
        | RetryDecision.relink ↦ Triple-pure again
        | RetryDecision.close ↦ Triple-pure gave_up
      ]

  answer-Keeps :
      (id : String) (o : Option (List (String × String)))
      → Keeps (elim o [
        | some parameters ↦ do dispatch_on_upstream_connected ic id; pure (answered parameters)
        | none ↦ consult_baseline ic env setup id
      ])
  answer-Keeps id none = consult_baseline-Keeps id
  answer-Keeps id (some parameters) =
      Triple-bind (dispatch_on_upstream_connected-local ic Inv-local id) λ _. Triple-pure _

  ask_baseline-Keeps : (n : ℕ) (e : Option EndpointConfig) → Keeps (ask_baseline ic env setup n e)
  unfolding ask_baseline
  ask_baseline-Keeps n none = Triple-pure gave_up
  ask_baseline-Keeps n (some e) = answer-Keeps e.id (setup.baseline n e.id)

  baseline_loop-Keeps : (n : ℕ) → Keeps (baseline_loop ic env setup n)
  unfolding baseline_loop
  baseline_loop-Keeps zero = Triple-pure none
  baseline_loop-Keeps (suc n) = Triple-bind (dispatch_upstream-local ic Inv-local env none) λ id.
      Triple-bind (ask_baseline-Keeps n (endpoint env.route id)) elim [
        | answered parameters ↦ Triple-pure (some parameters)
        | again ↦ baseline_loop-Keeps n
        | gave_up ↦ Triple-pure none
      ]

  baseline_or_fatal-Keeps : Keeps (baseline_or_fatal ic env setup)
  unfolding baseline_or_fatal baseline_params_routed
  baseline_or_fatal-Keeps = Triple-bind (baseline_loop-Keeps (attempts ic env)) elim [
    | some parameters ↦ Triple-pure (some parameters)
    | none ↦ Triple-bind (Triple-send_or_ignore Inv-local _) λ _. Triple-pure none
  ]

  parameters_of_lease-Keeps : Keeps (parameters_of_lease ic env setup)
  unfolding parameters_of_lease
  parameters_of_lease-Keeps = record { at = λ p h. found p h p.lease }
    where
      found :
          (p : Pump Ctx)
          → Inv p
          → (l : Option UpstreamLease)
          → Post {Ctx = Ctx} Inv
              (λ (_ : Option (List (String × String))). Inv)
              (elim l [ none ↦ (ok (some []), p) | some l ↦ (ok (some l.conn.parameters), p) ])
      found p h none = h
      found p h (some l) = h

  after_attach-Keeps :
      (done : Bool)
      → Triple Inv
          (Attaches ic env done)
          (if done then parameters_of_lease ic env setup else pure none)
          (λ _. Inv)
  after_attach-Keeps true = Triple-weaken (λ p h. h.0) parameters_of_lease-Keeps
  after_attach-Keeps false = Triple-pure none

  attach_now-Keeps : Keeps (attach_now ic env setup)
  unfolding attach_now
  attach_now-Keeps = Triple-bind (ensure_attached-Attaches ic env none) after_attach-Keeps

  pub server_parameters-Keeps : Keeps (server_parameters ic env setup)
  unfolding server_parameters
  server_parameters-Keeps =
      Triple-if env.transaction_mode _ _ baseline_or_fatal-Keeps attach_now-Keeps
