-- ===== src/Session/Startup/Baseline.antt =====
-- The parameters that a session's handshake reports (crates/pgferry/src/session.rs):
-- `baseline_params_routed`, and the part of `run_session_ready` that attaches.
use Prim.Native.Nat.{zero, suc}
use pgferry.Prelude.{ℕ, String, Option, none, some, List, [], if◌then◌else◌}
use pgferry.Config.{EndpointConfig, endpoint}
use pgferry.Intercept.{Interceptor, UpstreamError, RetryDecision}
use pgferry.Session.{Env}
use pgferry.Session.Attach.{attempts, ensure_attached}
use pgferry.Session.Effects.{
  M, ok, pure, send_or_ignore, dispatch_upstream, dispatch_on_upstream_error,
  dispatch_on_upstream_connected, ◌>>=◌, ◌>>◌,
}
use pgferry.Wire.{baseline_failed}
use pgferry.Session.Startup.{Setup, fatal}

-- The parameters of an endpoint's pool, or the end of the attempts.
pub data Asked : Type 0 where
  answered : List (String × String) → Asked
  again gave_up : Asked

module _ {Ctx : Type 0} (ic : Interceptor Ctx) (env : Env) (setup : Setup) where
  unfoldable pub consult_baseline : String → M Ctx Asked
  unfolding dispatch_on_upstream_error
  consult_baseline id = do
    decision ← dispatch_on_upstream_error ic (UpstreamError.connect id "baseline")
    elim decision [ RetryDecision.relink ↦ pure again | RetryDecision.close ↦ pure gave_up ]

  unfoldable pub ask_baseline : ℕ → Option EndpointConfig → M Ctx Asked
  unfolding consult_baseline dispatch_on_upstream_connected
  ask_baseline n none = pure gave_up
  ask_baseline n (some e) = elim (setup.baseline n e.id) [
    | some parameters ↦ do dispatch_on_upstream_connected ic e.id; pure (answered parameters)
    | none ↦ consult_baseline e.id
  ]

  unfoldable pub baseline_loop : ℕ → M Ctx (Option (List (String × String)))
  unfolding dispatch_upstream ask_baseline
  baseline_loop zero = pure none
  baseline_loop (suc n) = do
    id ← dispatch_upstream ic env none
    asked ← ask_baseline n (endpoint env.route id)
    elim asked [
      | answered parameters ↦ pure (some parameters)
      | again ↦ baseline_loop n
      | gave_up ↦ pure none
    ]

  unfoldable pub baseline_params_routed : M Ctx (Option (List (String × String)))
  unfolding baseline_loop
  baseline_params_routed = baseline_loop (attempts ic env)

  unfoldable pub baseline_or_fatal : M Ctx (Option (List (String × String)))
  unfolding baseline_params_routed
  baseline_or_fatal = do
    found ← baseline_params_routed
    elim found [
      | some parameters ↦ pure (some parameters)
      | none ↦ do send_or_ignore (fatal "08006" baseline_failed); pure none
    ]

  unfoldable pub parameters_of_lease : M Ctx (Option (List (String × String)))
  parameters_of_lease p = elim p.lease [
    | none ↦ (ok (some []), p)
    | some l ↦ (ok (some l.conn.parameters), p)
  ]

  unfoldable pub attach_now : M Ctx (Option (List (String × String)))
  unfolding ensure_attached parameters_of_lease
  attach_now = do
    done ← ensure_attached ic env none
    if done then parameters_of_lease else pure none

  -- The parameters for the client's handshake: in transaction mode those of the routed pool, in
  -- session mode those of the connection that the session leases now; `none` after a FATAL error.
  unfoldable pub server_parameters : M Ctx (Option (List (String × String)))
  unfolding baseline_or_fatal attach_now
  server_parameters = if env.transaction_mode then baseline_or_fatal else attach_now
