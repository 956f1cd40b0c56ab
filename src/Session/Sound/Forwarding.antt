-- ===== src/Session/Sound/Forwarding.antt =====
-- The client arm from the statement registry on, and the whole arm, keep the session's invariant;
-- the `unwrap` of the lease never fails.
use pgferry.Prelude.{
  ℕ, String, ◌≡◌, refl, Option, none, some, List, Bool, true, false, arith, if◌then◌else◌, str_eq,
}
use pgferry.Wire.{FrontendMessage, parse}
use pgferry.Conn.{Conn}
use pgferry.Conn
use pgferry.Intercept.{Interceptor, Action, RetryDecision}
use pgferry.Pool.{UpstreamLease}
use pgferry.Session.{Pump, Env, SessionHooks, client_gone}
use pgferry.Session.Effects.{destroy_lease, pure, break}
use pgferry.Session.Client.{
  Pending, await, starts_response, named_parse, registry_phase, record_pending, note_awaiting,
  synthesize_upstream_lost, after_loss, unlink, send_failed, after_send_failure, forward,
  forward_on, sent_on, call_on_frontend, act_on_frontend, frontend_hook, attach_phase,
  upstream_phase, client_message,
}
use pgferry.Session.Triples.{
  Triple, Triple-pure, Triple-next, Triple-break, Triple-gets, Triple-modify, Triple-bind,
  Triple-weaken, Triple-send, Triple-send_all, Triple-if, Post,
}
use pgferry.Session.Custody.{destroy_lease-Custody, replaced-Custody}
use pgferry.Session.Sound.{
  Inv, Leased, Held, Inv-local, Leased-local, swallow-Inv, send_ready_for_query-local,
  set_down_status-local, dispatch_on_upstream_error-local,
}
use pgferry.Session.Sound.Attaching.{Attaches, ensure_attached-Attaches}
use pgferry.Session.Sound.Asking.{Keeps, recovery_phase-Keeps, local_phase-Keeps, query_phase-Keeps}

module _ {Ctx : Type 0} where
  named_parse-Keeps :
      (name sql : String) (oids : List ℕ) (known : Option (String × List ℕ))
      → Keeps {Ctx = Ctx} (named_parse name sql oids known)
  unfolding named_parse
  named_parse-Keeps name sql oids none = Triple-pure _
  named_parse-Keeps name sql oids (some (known, types)) =
      Triple-if (str_eq known sql) _ _ (Triple-bind (Triple-send Inv-local _) λ _. Triple-next)
        (Triple-bind (Triple-send Inv-local _) λ _. Triple-bind swallow-Inv λ _. Triple-next)

  registry_phase-Keeps : (m : FrontendMessage) → Keeps {Ctx = Ctx} (registry_phase m)
  unfolding registry_phase
  registry_phase-Keeps (parse (some name) sql oids) =
      Triple-if (str_eq name "") _ _ (Triple-pure none)
        (Triple-bind (Triple-gets _) λ known. named_parse-Keeps name sql oids known)
  registry_phase-Keeps m = Triple-pure none

  record_pending-Leased :
      (pending : Pending) → Triple Inv Leased (record_pending {Ctx = Ctx} pending) (λ _. Leased)
  unfolding record_pending
  record_pending-Leased none = Triple-modify _ (λ p h. ((ground (arith, h.1), h.0.1, h.0.2), h.1))
  record_pending-Leased (some (name, sql, oids)) =
      Triple-modify _ (λ p h. ((ground (arith, h.1), ground arith, h.0.2), h.1))

  await_if-Leased : (b : Bool) (p : Pump Ctx) → Leased p → Leased (if b then await true p else p)
  await_if-Leased true p h = h
  await_if-Leased false p h = h

  note_awaiting-Leased :
      (m : FrontendMessage) → Triple Inv Leased (note_awaiting {Ctx = Ctx} m) (λ _. Leased)
  unfolding note_awaiting
  note_awaiting-Leased m = Triple-modify _ (await_if-Leased (starts_response m))

module _ {Ctx : Type 0} (ic : Interceptor Ctx) where
  pub unlink-Inv : (p : Pump Ctx) → Inv p → Inv (unlink p)
  unfolding destroy_lease
  unlink-Inv p (a, b, c) = (refl, ground (arith, b), destroy_lease-Custody p c)

  after_loss-Keeps : (extended : Bool) → Keeps (after_loss ic extended)
  unfolding after_loss
  after_loss-Keeps true = swallow-Inv
  after_loss-Keeps false =
      Triple-bind (send_ready_for_query-local Inv-local _)
        λ _. Triple-bind (set_down_status-local Inv-local _) λ _. Triple-modify _ (λ p h. h)

  pub synthesize_upstream_lost-Keeps : Keeps (synthesize_upstream_lost ic)
  unfolding synthesize_upstream_lost
  synthesize_upstream_lost-Keeps =
      Triple-bind (Triple-send Inv-local _)
        λ _. Triple-bind (Triple-gets _) λ extended. after_loss-Keeps extended

  after_send_failure-Keeps : (d : RetryDecision) → Keeps (after_send_failure ic d)
  unfolding after_send_failure
  after_send_failure-Keeps RetryDecision.close = Triple-break (λ e. cc e)
  after_send_failure-Keeps RetryDecision.relink = Triple-bind (Triple-modify _ unlink-Inv) λ _.
      Triple-bind (Triple-gets _) λ in_flight.
        Triple-bind
          (Triple-if in_flight _ _
            (Triple-bind synthesize_upstream_lost-Keeps λ _. Triple-modify _ (λ p h. h))
            (Triple-pure tt))
          λ _. Triple-bind (Triple-modify _ (λ p h. h)) λ _. Triple-next

  send_failed-Keeps : Keeps (send_failed ic)
  unfolding send_failed
  send_failed-Keeps = Triple-bind (Triple-gets _) λ endpoint.
      Triple-bind (dispatch_on_upstream_error-local ic Inv-local _) after_send_failure-Keeps

  sent_on-Post :
      (l : UpstreamLease) (c : Option Conn) (p : Pump Ctx)
      → Held l p
      → Post Inv (λ (_ : Unit {0}). Inv) (sent_on ic l c p)
  unfolding sent_on
  sent_on-Post l none p h = send_failed-Keeps.at p h.0
  sent_on-Post l (some c) p ((a, b, k), e) = (
    ground (arith, a),
    ground (arith, b, e),
    replaced-Custody l (record l { conn = c }) p e refl k,
  )

  forward_on-Post :
      (m : FrontendMessage) (l : Option UpstreamLease) (p : Pump Ctx)
      → p.lease ≡ l
      → Leased p
      → Post Inv (λ (_ : Unit {0}). Inv) (forward_on ic m l p)
  unfolding forward_on
  forward_on-Post m none p e h = absurd (ground arith)
  forward_on-Post m (some l) p e h = sent_on-Post l (Conn.send m l.conn) p (h.0, e)

  forward-Leased : (m : FrontendMessage) → Triple Inv Leased (forward ic m) (λ _. Inv)
  unfolding forward
  forward-Leased m = record { at = λ p h. forward_on-Post m p.lease p refl h }

  call_on_frontend-Leased :
      (m : FrontendMessage) (k : Option (SessionHooks Ctx))
      → Triple Inv Leased (call_on_frontend ic m k) (λ _. Leased)
  unfolding call_on_frontend
  call_on_frontend-Leased m none = record { at = λ p h. h }
  call_on_frontend-Leased m (some k) = record { at = λ p h. h }

  act_on_frontend-Leased :
      (m : FrontendMessage) (a : Action) → Triple Inv Leased (act_on_frontend ic m a) (λ _. Leased)
  unfolding act_on_frontend
  act_on_frontend-Leased m Action.forward = Triple-pure m
  act_on_frontend-Leased m (Action.reply ms) =
      Triple-bind (Triple-send_all Leased-local ms) λ _. Triple-weaken (λ p h. h.0) Triple-next
  act_on_frontend-Leased m a = Triple-weaken (λ p h. h.0) (Triple-break (λ e. cc e))

  frontend_hook-Leased :
      (m : FrontendMessage) → Triple Inv Leased (frontend_hook ic m) (λ _. Leased)
  unfolding frontend_hook
  frontend_hook-Leased m =
      Triple-bind (Triple-gets _)
        λ k. Triple-bind (call_on_frontend-Leased m k) λ answer. act_on_frontend-Leased _ _

module _ {Ctx : Type 0} (ic : Interceptor Ctx) (env : Env) where
  attached-Leased :
      (done : Bool)
      → Triple Inv
          (Attaches ic env done)
          (if done then pure tt else break client_gone)
          (λ (_ : Unit {0}). Leased)
  attached-Leased true = Triple-pure tt
  attached-Leased false = Triple-break (λ e. cc e)

  attach_phase-Leased :
      (sql : Option String) → Triple Inv Inv (attach_phase ic env sql) (λ _. Leased)
  unfolding attach_phase
  attach_phase-Leased sql = Triple-bind (ensure_attached-Attaches ic env sql) attached-Leased

  upstream_phase-Keeps :
      (sql : Option String) (m : FrontendMessage) → Keeps (upstream_phase ic env sql m)
  unfolding upstream_phase
  upstream_phase-Keeps sql m = Triple-bind (registry_phase-Keeps m) λ pending.
      Triple-bind (Triple-gets _) λ hint. Triple-bind (attach_phase-Leased hint) λ _.
        Triple-bind (record_pending-Leased pending) λ _.
          Triple-bind (frontend_hook-Leased ic m)
            λ m'. Triple-bind (note_awaiting-Leased m') λ _. forward-Leased ic m'

  pub client_message-Keeps : (m : FrontendMessage) → Keeps (client_message ic env m)
  unfolding client_message
  client_message-Keeps m = Triple-bind (recovery_phase-Keeps ic m) λ _.
      Triple-bind (local_phase-Keeps ic env.transaction_mode m)
        λ _. Triple-bind (query_phase-Keeps ic env m) λ m'. upstream_phase-Keeps _ m'
