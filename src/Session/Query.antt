-- ===== src/Session/Query.antt =====
-- The first phases of the client arm of `pump` (crates/pgferry/src/session.rs): recovery after an
-- injected error, what is answered locally while detached, and the `on_query` phase with each of
-- its actions.
use pgferry.Prelude.{String, Option, none, some, Bool, true, false, ◌&&◌, if◌then◌else◌, is_none}
use pgferry.Wire.{FrontendMessage, query, parse, sync, flush, close_complete}
use pgferry.Intercept.{
  Action, CycleKind, simple, extended, QueryCycle, new_cycle, take_rewritten, Interceptor,
}
use pgferry.Session.{SessionHooks, client_gone, Pump, Env}
use pgferry.Session.Effects.{
  M, ok, pure, next_iteration, break, gets, modify, send, send_ready_for_query, end_cycle,
  end_cycle_if_active, ◌>>=◌, ◌>>◌,
}
use pgferry.Session.Statements.{record_close}
use pgferry.Session.Actions.{start_cycle, send_ready_at_lease, denied, replied, scattered}

-- `cycle_input_of`: the SQL and the kind of a message that starts a cycle.
unfoldable pub cycle_input_of : FrontendMessage → Option (String × CycleKind)
cycle_input_of (query sql) = some (sql, simple)
cycle_input_of (parse name sql oids) = some (sql, extended name)
cycle_input_of m = none

unfoldable pub apply_rewrite : Option String → FrontendMessage → FrontendMessage
apply_rewrite (some sql) (query _) = query sql
apply_rewrite (some sql) (parse name _ oids) = parse name sql oids
apply_rewrite rewritten m = m

unfoldable pub cycle_sql_of : FrontendMessage → Option String
cycle_sql_of (query sql) = some sql
cycle_sql_of (parse name sql oids) = some sql
cycle_sql_of m = none

abbrev is_extended : CycleKind → Bool
is_extended simple = false
is_extended (extended name) = true

module _ {Ctx : Type 0} where
  abbrev pub close_registered : Option String → Pump Ctx → Pump Ctx
  close_registered none p = p
  close_registered (some name) p = record p { registry = record_close name p.registry }

module _ {Ctx : Type 0} (ic : Interceptor Ctx) where
  -- While an injected error is recovered from, only a Sync is answered.
  unfoldable pub recover : FrontendMessage → M Ctx (Unit {0})
  unfolding send_ready_at_lease end_cycle
  recover sync = do
    modify λ p. record p { swallow_until_sync = false }
    send_ready_at_lease
    end_cycle ic
    next_iteration
  recover m = next_iteration

  unfoldable pub recovery_phase : FrontendMessage → M Ctx (Unit {0})
  unfolding recover
  recovery_phase m = do
    swallowing ← gets (λ p. p.swallow_until_sync)
    if swallowing then recover m else pure tt

  -- Transaction mode, no lease: Sync, Flush and Close are answered without the upstream.
  unfoldable pub answer_locally : FrontendMessage → M Ctx (Unit {0})
  unfolding send_ready_for_query end_cycle_if_active
  answer_locally sync = do
    status ← gets (λ p. p.down.status)
    send_ready_for_query status
    end_cycle_if_active ic
    next_iteration
  answer_locally flush = next_iteration
  answer_locally (FrontendMessage.close name) = do
    modify (close_registered name)
    send close_complete
    next_iteration
  answer_locally m = pure tt

  unfoldable pub local_phase : Bool → FrontendMessage → M Ctx (Unit {0})
  unfolding answer_locally
  local_phase transaction_mode m = do
    detached ← gets (λ p. transaction_mode && is_none p.lease)
    if detached then answer_locally m else pure tt

  unfoldable pub act_on_query :
      Env → FrontendMessage → String → CycleKind → Option String → Action → M Ctx FrontendMessage
  unfolding apply_rewrite start_cycle cycle_sql_of denied replied scattered
  act_on_query env m sql kind rewritten Action.forward =
      start_cycle (cycle_sql_of (apply_rewrite rewritten m)) kind
      >> pure (apply_rewrite rewritten m)
  act_on_query env m sql kind rewritten (Action.deny info) = denied ic sql kind info
  act_on_query env m sql kind rewritten (Action.scatter request) = scattered ic env sql kind request
  act_on_query env m sql kind rewritten (Action.reply messages) = replied ic sql kind messages
  act_on_query env m sql kind rewritten Action.close = break client_gone

  unfoldable pub ask_interceptor :
      String → CycleKind → SessionHooks Ctx → M Ctx (QueryCycle × Action)
  unfolding new_cycle
  ask_interceptor sql kind h p =
      let (ctx', cycle, action) = ic.on_query h.ctx (new_cycle sql kind) in
      (ok (cycle, action), record p { hooks = some (record h { ctx = ctx' }) })

  unfoldable pub query_hook :
      Env → FrontendMessage → String → CycleKind → Option (SessionHooks Ctx) → M Ctx FrontendMessage
  unfolding ask_interceptor take_rewritten act_on_query
  query_hook env m sql kind none = pure m
  query_hook env m sql kind (some h) = do
    answer ← ask_interceptor sql kind h
    act_on_query env m sql kind (take_rewritten (answer.0)) (answer.1)

  unfoldable pub query_input :
      Env → FrontendMessage → Option (String × CycleKind) → M Ctx FrontendMessage
  unfolding query_hook
  query_input env m none = pure m
  query_input env m (some (sql, kind)) = do
    modify λ p. record p { cycle_is_extended = is_extended kind }
    hooks ← gets (λ p. p.hooks)
    query_hook env m sql kind hooks

  -- The message to go on with.
  unfoldable pub query_phase : Env → FrontendMessage → M Ctx FrontendMessage
  unfolding cycle_input_of query_input
  query_phase env m = query_input env m (cycle_input_of m)
