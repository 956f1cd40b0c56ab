-- ===== src/Session/Actions.antt =====
-- What `pump` (crates/pgferry/src/session.rs) does with the answers of `on_query`: `Action::Deny`,
-- `Action::Reply` and `Action::Scatter`.
use pgferry.Prelude.{ℕ, String, Option, none, some, List, [], ◌∷◌, Bool, true, false, if◌then◌else◌}
use mathlib.Core.Option
use pgferry.Wire.{
  TransactionStatus, is_idle, ErrorInfo, Message, scatter_simple_only, scatter_in_transaction,
  FrontendMessage, query, parse, sync, flush, BackendMessage, error_response, close_complete,
  data_row, command_complete,
}
use pgferry.Wire
use pgferry.Intercept.{
  CycleKind, simple, extended, CycleError, from_info, Interceptor, ScatterRequest,
}
use pgferry.Pool.{fetch_add}
use pgferry.Scatter.Execute.{Scattered, merged, failed, scatter_error, execute_scatter}
use pgferry.Scatter.Merge.{tag_with_count}
use pgferry.Session.{CycleTracking, SessionHooks, Pump, Env}
use pgferry.Session.Effects.{
  M, ok, pure, next_iteration, gets, modify, send, send_ready_for_query, set_down_status,
  lease_status, start, end_cycle, destroy_lease, ◌>>=◌, ◌>>◌,
}

abbrev pub fail_with : CycleError → CycleTracking → CycleTracking
fail_with e c = record c { error = some e }

unfoldable pub count_reply : BackendMessage → CycleTracking → CycleTracking
count_reply (data_row d) c = record c { rows = fetch_add c.rows 1 }
count_reply (command_complete tag) c = record c { tag = some tag }
count_reply m c = c

-- A scatter is allowed in the simple protocol, outside a transaction.
unfoldable pub scatter_refusal : CycleKind → TransactionStatus → Option ErrorInfo
scatter_refusal (extended name) status = some (scatter_error "0A000" scatter_simple_only)
scatter_refusal simple status =
    if is_idle status then none else some (scatter_error "0A000" scatter_in_transaction)

module _ {Ctx : Type 0} where
  unfoldable pub change_cycle : (CycleTracking → CycleTracking) → M Ctx (Unit {0})
  change_cycle f = modify λ p. record p {
    hooks = Option.map {A = SessionHooks Ctx} (λ h. record h { cycle = f h.cycle }) p.hooks;
  }

  unfoldable pub start_cycle : Option String → CycleKind → M Ctx (Unit {0})
  unfolding change_cycle start
  start_cycle sql kind = do now ← gets (λ p. p.now); change_cycle (start now sql kind)

  unfoldable pub swallow : M Ctx (Unit {0})
  swallow = modify λ p. record p { swallow_until_sync = true }

  unfoldable pub send_ready_at_lease : M Ctx (Unit {0})
  unfolding send_ready_for_query
  send_ready_at_lease = do status ← gets (λ p. lease_status p.lease); send_ready_for_query status

  unfoldable pub reply_messages : List BackendMessage → M Ctx (Unit {0})
  unfolding change_cycle count_reply
  reply_messages [] = pure tt
  reply_messages (m ∷ ms) = do change_cycle (count_reply m); send m; reply_messages ms

  unfoldable pub scatter_unless :
      Option ErrorInfo → Env → ScatterRequest → Pump Ctx → Scattered × Pump Ctx
  unfolding execute_scatter
  scatter_unless (some e) env request p = (failed e false, p)
  scatter_unless none env request p = execute_scatter env request p

  unfoldable pub run_scatter : Env → CycleKind → ScatterRequest → M Ctx Scattered
  unfolding scatter_refusal scatter_unless
  run_scatter env kind request p =
      let (r, p') = scatter_unless (scatter_refusal kind p.down.status) env request p in (ok r, p')

module _ {Ctx : Type 0} (ic : Interceptor Ctx) where
  -- The simple protocol's cycle ends here; the extended one's at the client's Sync.
  unfoldable pub end_simple : CycleKind → M Ctx (Unit {0})
  unfolding end_cycle swallow
  end_simple simple = end_cycle ic
  end_simple (extended name) = swallow

  unfoldable pub end_denied : CycleKind → M Ctx (Unit {0})
  unfolding send_ready_at_lease end_cycle swallow
  end_denied simple = do send_ready_at_lease; end_cycle ic
  end_denied (extended name) = swallow

  -- `Action::Deny`.
  unfoldable pub denied : String → CycleKind → ErrorInfo → M Ctx FrontendMessage
  unfolding start_cycle change_cycle end_denied
  denied sql kind info = do
    start_cycle (some sql) kind
    change_cycle (fail_with (from_info info))
    send (error_response info)
    end_denied kind
    next_iteration

  -- `Action::Reply`.
  unfoldable pub replied : String → CycleKind → List BackendMessage → M Ctx FrontendMessage
  unfolding start_cycle reply_messages send_ready_at_lease end_simple
  replied sql kind messages = do
    start_cycle (some sql) kind
    reply_messages messages
    send_ready_at_lease
    end_simple kind
    next_iteration

  unfoldable pub scatter_failed : ErrorInfo → Bool → M Ctx FrontendMessage
  unfolding destroy_lease change_cycle send_ready_for_query set_down_status end_cycle
  scatter_failed error lease_broken = do
    modify λ p. if lease_broken then destroy_lease p else p
    modify λ p. record p { current_endpoint = none; attached = false }
    change_cycle (fail_with (from_info error))
    send (error_response error)
    send_ready_for_query Wire.idle
    set_down_status Wire.idle
    end_cycle ic
    next_iteration

  unfoldable pub scatter_merged : ScatterRequest → ℕ → M Ctx FrontendMessage
  unfolding change_cycle tag_with_count send_ready_for_query end_cycle
  scatter_merged request rows = do
    change_cycle λ c. record c { rows = rows; tag = some (tag_with_count request.tag rows) }
    status ← gets (λ p. p.down.status)
    send_ready_for_query status
    end_cycle ic
    next_iteration

  unfoldable pub after_scatter : ScatterRequest → Scattered → M Ctx FrontendMessage
  unfolding scatter_failed scatter_merged
  after_scatter request (merged rows) = scatter_merged request rows
  after_scatter request (failed error lease_broken) = scatter_failed error lease_broken

  -- `Action::Scatter`.
  unfoldable pub scattered : Env → String → CycleKind → ScatterRequest → M Ctx FrontendMessage
  unfolding start_cycle run_scatter after_scatter
  scattered env sql kind request = do
    start_cycle (some sql) kind
    result ← run_scatter env kind request
    after_scatter request result
