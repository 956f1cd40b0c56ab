-- ===== src/Session/Sound/Whole.antt =====
-- The upstream arm, every event and every run keep the session's invariant.
use pgferry.Prelude.{
  ℕ, ◌≡◌, refl, ◌≢◌, Option, none, some, List, [], ◌∷◌, Bool, true, false, not, ◌||◌, is_none,
  is_some, arith, if◌then◌else◌,
}
use pgferry.Wire.{
  TransactionStatus, FrontendMessage, terminate, BackendMessage, ready_for_query, parameter_status,
}
use pgferry.Config.{RouteConfig}
use pgferry.Intercept.{Interceptor, Action, RetryDecision}
use pgferry.Pool.{UpstreamLease}
use pgferry.Session.{Downstream, SessionHooks, End, client_gone, panicked, Pump, Env}
use pgferry.Session.Effects.{M, Out, ok, skip, stop}
use pgferry.Session.Attach.{is_empty}
use pgferry.Conn.{set_parameter_cache}
use pgferry.Session.Custody.{replaced-Custody}
use pgferry.Session.Server.{with_status, track, phase_message, call_on_backend}
use pgferry.Session.Relay.{
  detach_if_idle, relay, after_ready, act_on_backend, server_message, relay_phased,
  after_upstream_loss, upstream_lost,
}
use pgferry.Session.Events.{
  Event, client_eof, client_garbage, from_client, server_eof, server_garbage, from_server,
  cancel_requested, shutdown_signaled, copying, cancel_upstream, on_shutdown, if_leased,
  on_upstream, on_client, handle, iterate, go_on, run, new_pump,
}
use pgferry.Session.Triples.{
  Triple, Triple-pure, Triple-next, Triple-break, Triple-gets, Triple-modify, Triple-bind,
  Triple-weaken, Triple-send, Triple-send_all, Triple-if, Post,
}
use pgferry.Session.Sound.{
  Inv, Held, Inv-local, end_cycle_if_active-local, dispatch_on_upstream_error-local,
}
use pgferry.Session.Sound.Asking.{Keeps}
use pgferry.Session.Sound.Forwarding.{
  unlink-Inv, synthesize_upstream_lost-Keeps, client_message-Keeps,
}

module _ {Ctx : Type 0} where
  detach_if_idle-Inv :
      (mode : Bool) (s : TransactionStatus) (p : Pump Ctx) → Inv p → Inv (detach_if_idle mode s p)
  unfolding detach_if_idle
  detach_if_idle-Inv mode s p (a, b, c) =
      (ground (arith, a), ground (arith, b), λ v. ground (arith, c v))

  track-Inv :
      (mode : Bool) (l : UpstreamLease) (m : BackendMessage) (p : Pump Ctx)
      → Held l p
      → Inv (track mode l m p)
  unfolding track
  track-Inv mode l (ready_for_query s) p ((a, b, c), e) =
      (ground (arith, a), ground (arith, b, e), replaced-Custody l (with_status s l) p e refl c)
  track-Inv mode l (parameter_status n v) p ((a, b, c), e) = (
    ground (arith, a),
    ground (arith, b, e),
    replaced-Custody l (record l { conn = set_parameter_cache n v l.conn }) p e refl c,
  )
  track-Inv mode l m p h = h.0

module _ {Ctx : Type 0} (ic : Interceptor Ctx) where
  after_ready-Keeps :
      (mode : Bool) (s : TransactionStatus) (draining : Bool)
      → Keeps {Ctx = Ctx} (after_ready mode s draining)
  unfolding after_ready
  after_ready-Keeps mode s true = Triple-break (λ e. cc e)
  after_ready-Keeps mode s false = Triple-modify _ (detach_if_idle-Inv mode s)

  relay-Keeps :
      (mode : Bool) (s : TransactionStatus) (m : BackendMessage) → Keeps (relay ic mode s m)
  unfolding relay
  relay-Keeps mode s m = Triple-bind (Triple-send Inv-local m) λ _.
      Triple-bind (Triple-modify _ (λ p h. h)) λ _.
        Triple-if _ _ _
          (Triple-bind (end_cycle_if_active-local ic Inv-local)
            λ _. Triple-bind (Triple-gets _) λ d. after_ready-Keeps mode s d)
          (Triple-pure tt)

  act_on_backend-Keeps :
      (mode : Bool) (s : TransactionStatus) (m : BackendMessage) (a : Action)
      → Keeps (act_on_backend ic mode s m a)
  unfolding act_on_backend
  act_on_backend-Keeps mode s m Action.forward = relay-Keeps mode s m
  act_on_backend-Keeps mode s m (Action.reply ms) =
      Triple-bind (Triple-send_all Inv-local ms) λ _. Triple-modify _ (λ p h. h)
  act_on_backend-Keeps mode s m a = Triple-break (λ e. cc e)

  phase_message-Keeps :
      (m : BackendMessage) (k : Option (SessionHooks Ctx)) → Keeps (phase_message ic m k)
  unfolding phase_message
  phase_message-Keeps m none = record { at = λ p h. h }
  phase_message-Keeps m (some k) = record { at = λ p h. h }

  call_on_backend-Keeps :
      (m : BackendMessage) (k : Option (SessionHooks Ctx)) → Keeps (call_on_backend ic m k)
  unfolding call_on_backend
  call_on_backend-Keeps m none = record { at = λ p h. h }
  call_on_backend-Keeps m (some k) = record { at = λ p h. h }

  relay_phased-Keeps :
      (mode : Bool) (s : TransactionStatus) (m : BackendMessage) (is_dropped : Bool)
      → Keeps (relay_phased ic mode s m is_dropped)
  unfolding relay_phased
  relay_phased-Keeps mode s m true = Triple-next
  relay_phased-Keeps mode s m false =
      Triple-bind (Triple-gets _)
        λ k. Triple-bind (call_on_backend-Keeps m k) λ answer. act_on_backend-Keeps mode s _ _

  server_message-Held :
      (mode : Bool) (l : UpstreamLease) (m : BackendMessage)
      → Triple Inv (Held l) (server_message ic mode l m) (λ _. Inv)
  unfolding server_message
  server_message-Held mode l m = Triple-bind (Triple-modify _ (track-Inv mode l m)) λ _.
      Triple-bind (Triple-gets _) λ s.
        Triple-bind (Triple-gets _)
          λ k. Triple-bind (phase_message-Keeps m k) λ phased. relay_phased-Keeps mode s _ _

  after_upstream_loss-Keeps : (d : RetryDecision) → Keeps (after_upstream_loss ic d)
  unfolding after_upstream_loss
  after_upstream_loss-Keeps RetryDecision.close = Triple-break (λ e. cc e)
  after_upstream_loss-Keeps RetryDecision.relink =
      Triple-bind (Triple-modify _ (unlink-Inv ic)) λ _. Triple-bind (Triple-gets _) λ awaiting.
        Triple-bind (Triple-if awaiting _ _ (synthesize_upstream_lost-Keeps ic) (Triple-pure tt))
          λ _. Triple-bind (Triple-modify _ (λ p h. h)) λ _. Triple-next

  upstream_lost-Keeps : Keeps (upstream_lost ic)
  unfolding upstream_lost
  upstream_lost-Keeps = Triple-bind (Triple-gets _) λ endpoint.
      Triple-bind (dispatch_on_upstream_error-local ic Inv-local _) after_upstream_loss-Keeps

module _ {Ctx : Type 0} where
  if_leased-Post :
      (k : UpstreamLease → M Ctx (Unit {0}))
      → ((l : UpstreamLease) → Triple Inv (Held l) (k l) (λ _. Inv))
      → (l : Option UpstreamLease) (p : Pump Ctx) → p.lease ≡ l
      → Inv p
      → Post Inv (λ (_ : Unit {0}). Inv) (if_leased k l p)
  unfolding if_leased
  if_leased-Post k t none p e h = h
  if_leased-Post k t (some l) p e h = (t l).at p (h, e)

  on_upstream-Keeps :
      (k : UpstreamLease → M Ctx (Unit {0}))
      → ((l : UpstreamLease) → Triple Inv (Held l) (k l) (λ _. Inv))
      → Keeps (on_upstream k)
  unfolding on_upstream
  on_upstream-Keeps k t = record { at = λ p h. if_leased-Post k t p.lease p refl h }

  cancel_upstream-Inv : (p : Pump Ctx) → Inv p → Inv (cancel_upstream p)
  unfolding cancel_upstream
  cancel_upstream-Inv p (a, b, c) = (ground (arith, a), ground (arith, b), λ v. ground (arith, c v))

  on_shutdown-Keeps : Keeps {Ctx = Ctx} on_shutdown
  unfolding on_shutdown
  on_shutdown-Keeps = record {
    at = λ p h. shut (p.hygiene.awaiting_response || copying p.hygiene.copy) p h;
  }
    where
      shut :
          (busy : Bool) (p : Pump Ctx)
          → Inv p
          → Post {Ctx = Ctx} Inv
              (λ (_ : Unit {0}). Inv)
              (if busy then (ok tt, record p { draining = true }) else (stop client_gone, p))
      shut true p h = h
      shut false p h = (h, λ e. cc e)

pub new_pump-Inv :
    {Ctx : Type 0} (route : RouteConfig) (now : ℕ) (lease : Option UpstreamLease)
    (down : Downstream) (hooks : Option (SessionHooks Ctx))
    → Inv (new_pump route now lease down hooks)
unfolding new_pump
new_pump-Inv route now none down hooks = (refl, refl, λ v. refl)
new_pump-Inv route now (some l) down hooks = (refl, refl, λ v. omega arith)

module _ {Ctx : Type 0} (ic : Interceptor Ctx) (env : Env) where
  on_client-Keeps : (m : FrontendMessage) → Keeps (on_client ic env m)
  unfolding on_client
  on_client-Keeps terminate = Triple-break (λ e. cc e)
  on_client-Keeps m = client_message-Keeps ic env m

  handle-Keeps : (e : Event) → Keeps (handle ic env e)
  unfolding handle
  handle-Keeps client_eof = Triple-break (λ e. cc e)
  handle-Keeps client_garbage = Triple-break (λ e. cc e)
  handle-Keeps (from_client m) = on_client-Keeps m
  handle-Keeps server_eof =
      on_upstream-Keeps _ λ l. Triple-weaken (λ p h. h.0) (upstream_lost-Keeps ic)
  handle-Keeps server_garbage =
      on_upstream-Keeps _ λ l. Triple-weaken (λ p h. h.0) (Triple-break (λ e. cc e))
  handle-Keeps (from_server m) =
      on_upstream-Keeps _ λ l. server_message-Held ic env.transaction_mode l m
  handle-Keeps cancel_requested = Triple-modify _ cancel_upstream-Inv
  handle-Keeps shutdown_signaled = on_shutdown-Keeps

  -- A run that reached its end did not panic, and left the invariant.
  abbrev Ended : Option End × Pump Ctx → Type 0
  Ended (none, p) = Inv p
  Ended (some e, p) = Inv p × (e ≢ panicked)

  continue_run :
      (es : List (ℕ × Event))
      → ((p : Pump Ctx) → Inv p → Ended (run ic env es p))
      → (r : Out (Unit {0})) (p : Pump Ctx) → Post Inv (λ (_ : Unit {0}). Inv) (r, p)
      → Ended (go_on ic env es r p)
  unfolding go_on
  continue_run es k (ok u) p h = k p h
  continue_run es k skip p h = k p h
  continue_run es k (stop e) p h = h

  run-Ended : (es : List (ℕ × Event)) (p : Pump Ctx) → Inv p → Ended (run ic env es p)
  unfolding run iterate go_on
  run-Ended [] p h = h
  run-Ended ((now, e) ∷ es) p h =
      let (r, p') = handle ic env e (record p { now = now }) in
      continue_run es (run-Ended es) r p' ((handle-Keeps e).at (record p { now = now }) h)

  Ended-parts : (r : Option End × Pump Ctx) → Ended r → (r.0 ≢ some panicked) × Inv r.1
  Ended-parts (none, p) h = (λ e. cc e, h)
  Ended-parts (some x, p) h = (λ e. h.1 (cc e), h.0)

  pub run-Kept : (es : List (ℕ × Event)) (p : Pump Ctx) → Inv p → Inv (run ic env es p).1
  run-Kept es p h = (Ended-parts (run ic env es p) (run-Ended es p h)).1

  -- Whatever the client, the server, the hooks, the pools and the scheduler do: from its start on a
  -- session never panics on a missing lease; it counts as attached only while it holds a lease; and
  -- a lease that is not marked dirty carries none of the session's prepared statements.
  pub run-Inv :
      (now : ℕ) (lease : Option UpstreamLease) (down : Downstream)
      (hooks : Option (SessionHooks Ctx)) (es : List (ℕ × Event))
      → let r = run ic env es (new_pump env.route now lease down hooks) in
        (r.0 ≢ some panicked)
        × ((not r.1.attached || is_some r.1.lease) ≡ true)
        × ((is_none r.1.lease || (r.1.lease_dirty || is_empty r.1.registry)) ≡ true)
  run-Inv now lease down hooks es =
      let p = new_pump env.route now lease down hooks in
      let (a, b) =
        Ended-parts (run ic env es p)
          (run-Ended es p (new_pump-Inv env.route now lease down hooks)) in
      (a, b.0, b.1)
