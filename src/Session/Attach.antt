-- ===== src/Session/Attach.antt =====
-- `ensure_attached` of crates/pgferry/src/session.rs: route, check a connection out, carry the
-- session's state over to it, and retry under the interceptor's error policy.
use Prim.Native.Nat.{max}
use Prim.Native.String.{◌++◌}
use pgferry.Prelude.{
  ℕ, zero, suc, ◌+◌, ◌*◌, String, Option, none, some, [], ◌∷◌, Bool, true, false, if◌then◌else◌,
  length,
}
use pgferry.Wire.{
  Message, all_endpoints_failed, unknown_upstream_endpoint, failed_to_connect, failed_to_prepare,
  failed_to_replay_guc, failed_to_replay_statements, BackendMessage, error_response,
}
use pgferry.Config.{EndpointConfig, endpoint}
use pgferry.Intercept.{Interceptor, UpstreamError, RetryDecision}
use pgferry.Pool.{UpstreamLease}
use pgferry.Pool.Parameters.{sync_startup_parameters}
use pgferry.Session.{Registry, destroyed, Pump, Checkout, leased, refused, Env}
use pgferry.Session.Effects.{
  M, ok, pure, gets, modify, send_or_ignore, dispatch_upstream, dispatch_on_upstream_error,
  dispatch_on_upstream_connected, ◌>>=◌, ◌>>◌,
}
use pgferry.Session.Statements.{replay, replay_gucs, replayed, failed_at}

-- An error that ends the attach: FATAL, SQLSTATE 08006.
unfoldable pub attach_fatal : Message → BackendMessage
attach_fatal message =
    error_response (record { severity = "FATAL"; code = "08006"; message = message })

unfoldable pub send_attach_fatal : {Ctx : Type 0} → Message → M Ctx (Unit {0})
unfolding attach_fatal
send_attach_fatal message = send_or_ignore (attach_fatal message)

-- One round of the loop: attached, try again, or give up.
pub data Tried : Type 0 where
  attached retry : Tried
  fatal : Message → Tried

abbrev destroyed_now : {Ctx : Type 0} → UpstreamLease → Pump Ctx → Pump Ctx
destroyed_now l p = record p { released = destroyed l ∷ p.released }

abbrev pub is_empty : Registry → Bool
is_empty [] = true
is_empty (s ∷ r) = false

module _ {Ctx : Type 0} (ic : Interceptor Ctx) (env : Env) where
  -- A failure of this round goes to `on_upstream_error`, as a `Connect` error.
  unfoldable pub consult : String → String → Message → M Ctx Tried
  unfolding dispatch_on_upstream_error
  consult id text message = do
    decision ← dispatch_on_upstream_error ic (UpstreamError.connect id text)
    elim decision [ RetryDecision.relink ↦ pure retry | RetryDecision.close ↦ pure (fatal message) ]

  -- The lease of this round is destroyed before the error policy is asked.
  unfoldable pub abandon : UpstreamLease → String → String → Message → M Ctx Tried
  unfolding consult
  abandon lease id text message = modify (destroyed_now lease) >> consult id text message

  unfoldable pub finish_attach : String → UpstreamLease → M Ctx Tried
  unfolding dispatch_on_upstream_connected
  finish_attach id lease = do
    dispatch_on_upstream_connected ic id
    modify λ p. record p { current_endpoint = some id; lease = some lease }
    pure attached

  -- Named statements, re-parsed; they make the connection dirty.
  unfoldable pub prepare_statements : String → UpstreamLease → M Ctx Tried
  unfolding abandon finish_attach
  prepare_statements id lease = do
    registry ← gets λ p. p.registry
    elim (replay registry lease.conn) [
      | none ↦ abandon lease id "prepared statement replay failed" failed_to_replay_statements
      | some c ↦ do
        modify λ p. if is_empty p.registry then p else record p { lease_dirty = true }
        finish_attach id (record lease { conn = c })
    ]

  unfoldable pub prepare_gucs : String → UpstreamLease → M Ctx Tried
  unfolding abandon prepare_statements
  prepare_gucs id lease = do
    gucs ← gets λ p. p.guc_overrides
    dirty ← gets λ p. p.lease_dirty
    elim (replay_gucs env.simple_query gucs dirty lease.conn) [
      | failed_at name dirty' ↦ do
        modify λ p. record p { lease_dirty = dirty' }
        abandon lease id ("GUC replay: SET " ++ name) (failed_to_replay_guc name)
      | replayed c dirty' ↦ do
        modify λ p. record p { lease_dirty = dirty' }
        prepare_statements id (record lease { conn = c })
    ]

  unfoldable pub prepare_startup : String → UpstreamLease → M Ctx Tried
  unfolding abandon prepare_gucs
  prepare_startup id lease =
      elim (sync_startup_parameters env.simple_query env.startup_parameters lease.conn) [
        | none ↦ abandon lease id "parameter sync" failed_to_prepare
        | some c ↦ prepare_gucs id (record lease { conn = c })
      ]

  -- `pool.checkout()` on the pool of the endpoint.
  unfoldable pub ask_pool : String → M Ctx Checkout
  ask_pool id p = (ok (env.checkout p.checkouts id), record p { checkouts = p.checkouts + 1 })

  unfoldable pub use_answer : String → Checkout → M Ctx Tried
  unfolding consult prepare_startup
  use_answer id (refused error) = consult id error (failed_to_connect error)
  use_answer id (leased lease) = do
    modify λ p. record p { granted = lease ∷ p.granted }
    prepare_startup id lease

  unfoldable pub attach_to : String → Option EndpointConfig → M Ctx Tried
  unfolding ask_pool use_answer
  attach_to id none = pure (fatal (unknown_upstream_endpoint id))
  attach_to id (some e) = do result ← ask_pool e.id; use_answer e.id result

  unfoldable pub try_attach : Option String → M Ctx Tried
  unfolding dispatch_upstream attach_to
  try_attach sql = do id ← dispatch_upstream ic env sql; attach_to id (endpoint env.route id)

  unfoldable pub attach_loop : ℕ → Option String → M Ctx Bool
  unfolding try_attach send_attach_fatal
  attach_loop zero sql = do send_attach_fatal all_endpoints_failed; pure false
  attach_loop (suc n) sql = do
    tried ← try_attach sql
    elim tried [
      | attached ↦ pure true
      | retry ↦ attach_loop n sql
      | fatal message ↦ do send_attach_fatal message; pure false
    ]

  abbrev pub attempts : ℕ
  attempts = max (length env.route.endpoints * 2) 2

  unfoldable pub ensure_attached : Option String → M Ctx Bool
  unfolding attach_loop
  ensure_attached sql p = elim p.lease [ some l ↦ (ok true, p) | none ↦ attach_loop attempts sql p ]
