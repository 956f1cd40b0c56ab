-- ===== src/Session/Client.antt =====
-- The client arm of `pump` (crates/pgferry/src/session.rs) from the statement registry on: attach,
-- raw hook, forward to the upstream, failover when that fails. `client_message` is the whole arm.
use pgferry.Prelude.{
  ℕ, ◌+◌, ◌%◌, ◌^◌, String, Option, none, some, List, Bool, true, false, ◌||◌, ltb, if◌then◌else◌,
  lookup, str_eq,
}
use pgferry.Wire.{
  ErrorInfo, Message, upstream_connection_lost, statement_exists, FrontendMessage, query, parse,
  flush, sync, BackendMessage, error_response, parse_complete,
}
use pgferry.Wire
use pgferry.Conn.{Conn}
use pgferry.Conn
use pgferry.Intercept.{Action, CycleError, Interceptor, UpstreamError, RetryDecision}
use pgferry.Pool.{UpstreamLease, fetch_add}
use pgferry.Session.{SessionHooks, client_gone, upstream_broken, panicked, Pump, Env}
use pgferry.Session.Effects.{
  M, Out, ok, pure, next_iteration, break, gets, modify, send, send_all, send_ready_for_query,
  set_down_status, end_hooks, dispatch_on_upstream_error, destroy_lease, ◌>>=◌, ◌>>◌,
}
use pgferry.Session.Statements.{record_parse, bind_statement_sql}
use pgferry.Session.Attach.{ensure_attached}
use pgferry.Session.Actions.{swallow}
use pgferry.Session.Query.{cycle_sql_of, recovery_phase, local_phase, query_phase}
use mathlib.Core.Option

-- A statement that is recorded once the session is attached: its name, SQL and types.
abbrev pub Pending : Type 0
Pending = Option (String × String × List ℕ)

-- `hygiene.awaiting_response = true` for the messages that start a response cycle.
abbrev pub starts_response : FrontendMessage → Bool
starts_response (query sql) = true
starts_response sync = true
starts_response flush = true
starts_response m = false

module _ {Ctx : Type 0} where
  -- A Parse of a named statement, with what the registry has under its name.
  unfoldable pub named_parse : String → String → List ℕ → Option (String × List ℕ) → M Ctx Pending
  unfolding swallow
  named_parse name sql oids none = pure (some (name, sql, oids))
  named_parse name sql oids (some (known, _)) =
      if str_eq known sql then (do send parse_complete; next_iteration) else do
        send (
            error_response
              (record { severity = "ERROR"; code = "42P05"; message = statement_exists name }))
        swallow
        next_iteration

  unfoldable pub registry_phase : FrontendMessage → M Ctx Pending
  unfolding named_parse
  registry_phase (parse (some name) sql oids) =
      if str_eq name ""
      then pure none
      else do known ← gets (λ p. lookup name p.registry); named_parse name sql oids known
  registry_phase m = pure none

  unfoldable pub record_pending : Pending → M Ctx (Unit {0})
  unfolding record_parse
  record_pending none = modify λ p. record p { attached = true }
  record_pending (some (name, sql, oids)) = modify λ p. record p {
    registry = record_parse name sql oids p.registry;
    lease_dirty = true;
    attached = true;
  }

  abbrev pub await : Bool → Pump Ctx → Pump Ctx
  await b p = record p { hygiene = record (p.hygiene) { awaiting_response = b } }

  unfoldable pub note_awaiting : FrontendMessage → M Ctx (Unit {0})
  note_awaiting m = modify λ p. if starts_response m then await true p else p

abbrev pub lost_error : CycleError
lost_error = record { code = "08006"; message = upstream_connection_lost }

abbrev pub lost_info : ErrorInfo
lost_info = record { severity = "ERROR"; code = "08006"; message = upstream_connection_lost }

abbrev pub or_empty : Option String → String
or_empty none = ""
or_empty (some s) = s

module _ {Ctx : Type 0} where
  -- What a relink starts with: the lease is destroyed and the session detached.
  abbrev pub unlink : Pump Ctx → Pump Ctx
  unlink p = record (destroy_lease p) { current_endpoint = none; attached = false }

  abbrev pub nothing_in_flight : Pump Ctx → Pump Ctx
  nothing_in_flight p = record (await false p) { fed_since_rfq = 0 }

  abbrev count_frontend : Pump Ctx → Pump Ctx
  count_frontend p = record p { frontend = fetch_add p.frontend 1 }

module _ {Ctx : Type 0} (ic : Interceptor Ctx) where
  -- The report is taken before the error is noted in the cycle.
  unfoldable pub end_hooks_lost : ℕ → SessionHooks Ctx → SessionHooks Ctx
  unfolding end_hooks
  end_hooks_lost now h =
      let h' = end_hooks ic now h in
      if h.cycle.active
      then record h' { cycle = record (h'.cycle) { error = some lost_error } }
      else h

  -- An extended cycle is recovered from until its Sync; a simple one ends here.
  unfoldable pub after_loss : Bool → M Ctx (Unit {0})
  unfolding send_ready_for_query set_down_status end_hooks_lost swallow
  after_loss true = swallow
  after_loss false = do
    send_ready_for_query Wire.idle
    set_down_status Wire.idle
    modify λ p. record p { hooks = Option.map (end_hooks_lost p.now) p.hooks }

  -- `synthesize_upstream_lost`.
  unfoldable pub synthesize_upstream_lost : M Ctx (Unit {0})
  unfolding after_loss
  synthesize_upstream_lost = do
    send (error_response lost_info)
    extended ← gets (λ p. p.cycle_is_extended)
    after_loss extended

  unfoldable pub after_send_failure : RetryDecision → M Ctx (Unit {0})
  unfolding destroy_lease synthesize_upstream_lost
  after_send_failure RetryDecision.close = break upstream_broken
  after_send_failure RetryDecision.relink = do
    modify unlink
    in_flight ← gets (λ p. p.hygiene.awaiting_response || ltb 0 p.fed_since_rfq)
    if in_flight then (do synthesize_upstream_lost; modify nothing_in_flight) else pure tt
    modify count_frontend
    next_iteration

  -- The upstream refused the message.
  unfoldable pub send_failed : M Ctx (Unit {0})
  unfolding dispatch_on_upstream_error after_send_failure
  send_failed = do
    endpoint ← gets (λ p. or_empty p.current_endpoint)
    decision ← dispatch_on_upstream_error ic (UpstreamError.connection_lost endpoint "send failed")
    after_send_failure decision

  unfoldable pub sent_on : UpstreamLease → Option Conn → M Ctx (Unit {0})
  unfolding send_failed
  sent_on l none p = send_failed p
  sent_on l (some c) p = (
    ok tt,
    record p {
      lease = some (record l { conn = c });
      fed_since_rfq = (p.fed_since_rfq + 1) % 2 ^ 32;
      frontend = fetch_add p.frontend 1;
    },
  )

  unfoldable pub forward_on : FrontendMessage → Option UpstreamLease → M Ctx (Unit {0})
  unfolding sent_on
  forward_on m none p = (Out.stop panicked, p)
  forward_on m (some l) p = sent_on l (Conn.send m l.conn) p

  -- `lease.as_mut().unwrap().conn.send(msg)`, or `feed`, which may fail just as well.
  unfoldable pub forward : FrontendMessage → M Ctx (Unit {0})
  unfolding forward_on
  forward m p = forward_on m p.lease p

  unfoldable pub call_on_frontend :
      FrontendMessage → Option (SessionHooks Ctx) → M Ctx (FrontendMessage × Action)
  call_on_frontend m none p = (ok (m, Action.forward), p)
  call_on_frontend m (some h) p =
      let (ctx', m', action) = ic.on_frontend h.ctx m in
      (ok (m', action), record p { hooks = some (record h { ctx = ctx' }) })

  unfoldable pub act_on_frontend : FrontendMessage → Action → M Ctx FrontendMessage
  act_on_frontend m Action.forward = pure m
  act_on_frontend m (Action.reply messages) = do send_all messages; next_iteration
  act_on_frontend m _ = break client_gone

  unfoldable pub frontend_hook : FrontendMessage → M Ctx FrontendMessage
  unfolding call_on_frontend act_on_frontend
  frontend_hook m = do
    hooks ← gets (λ p. p.hooks)
    answer ← call_on_frontend m hooks
    act_on_frontend (answer.0) (answer.1)

module _ {Ctx : Type 0} (ic : Interceptor Ctx) (env : Env) where
  abbrev first_of_two : Option String → Option String → Option String
  first_of_two none b = b
  first_of_two (some a) b = some a

  unfoldable pub attach_phase : Option String → M Ctx (Unit {0})
  attach_phase sql = do
    done ← ensure_attached ic env sql
    if done then pure tt else break client_gone

  -- The hint is the SQL as the client sent it, or that of the statement that a Bind names.
  unfoldable pub upstream_phase : Option String → FrontendMessage → M Ctx (Unit {0})
  unfolding registry_phase bind_statement_sql attach_phase record_pending frontend_hook
      note_awaiting forward
  upstream_phase sql m = do
    pending ← registry_phase m
    hint ← gets (λ p. first_of_two sql (bind_statement_sql m p.registry))
    attach_phase hint
    record_pending pending
    m' ← frontend_hook ic m
    note_awaiting m'
    forward ic m'

  -- A decoded client message other than Terminate.
  unfoldable pub client_message : FrontendMessage → M Ctx (Unit {0})
  unfolding recovery_phase local_phase query_phase cycle_sql_of upstream_phase
  client_message m = do
    recovery_phase ic m
    local_phase ic env.transaction_mode m
    m' ← query_phase ic env m
    upstream_phase (cycle_sql_of m) m'
