-- ===== src/Session/Relay.antt =====
-- The upstream arm of `pump` (crates/pgferry/src/session.rs), continued: what a message does once
-- the row phase is over, and the arm as a whole.
use pgferry.Prelude.{none, some, Bool, true, false, ◌&&◌, if◌then◌else◌}
use pgferry.Wire.{TransactionStatus, is_idle, BackendMessage, ready_for_query}
use pgferry.Intercept.{Action, Interceptor, UpstreamError, RetryDecision}
use pgferry.Pool.{UpstreamLease, fetch_add}
use pgferry.Session.{Release, client_gone, upstream_broken, Pump}
use pgferry.Session.Effects.{
  M, pure, next_iteration, break, gets, modify, send, send_all, end_cycle_if_active, lease_status,
  dispatch_on_upstream_error, give_up, destroy_lease, ◌>>=◌, ◌>>◌,
}
use pgferry.Session.Client.{or_empty, synthesize_upstream_lost, unlink, nothing_in_flight}
use pgferry.Session.Server.{track, phase_message, call_on_backend}

abbrev is_ready_for_query : BackendMessage → Bool
is_ready_for_query (ready_for_query s) = true
is_ready_for_query m = false

module _ {Ctx : Type 0} where
  -- `detach_if_idle`, with what the pump resets after it.
  unfoldable pub detach_if_idle : Bool → TransactionStatus → Pump Ctx → Pump Ctx
  detach_if_idle transaction_mode status p = elim p.lease [
    | none ↦ p
    | some l ↦
        if transaction_mode && is_idle status
        then record (give_up (Release.detached l p.lease_dirty) p) {
          lease_dirty = false;
          attached = false;
        }
        else p
  ]

  abbrev count_backend : Pump Ctx → Pump Ctx
  count_backend p = record p { backend = fetch_add p.backend 1 }

module _ {Ctx : Type 0} where
  unfoldable pub after_ready : Bool → TransactionStatus → Bool → M Ctx (Unit {0})
  unfolding detach_if_idle
  after_ready transaction_mode status true = break client_gone
  after_ready transaction_mode status false = modify (detach_if_idle transaction_mode status)

module _ {Ctx : Type 0} (ic : Interceptor Ctx) where
  -- Send the message on; at a ReadyForQuery end the cycle, then the session if it drains, or detach.
  -- The report is made before the message is sent, and handed over afterwards.
  unfoldable pub relay : Bool → TransactionStatus → BackendMessage → M Ctx (Unit {0})
  unfolding end_cycle_if_active after_ready
  relay transaction_mode status m = do
    send m
    modify count_backend
    if is_ready_for_query m
        then (do
          end_cycle_if_active ic
          draining ← gets (λ p. p.draining)
          after_ready transaction_mode status draining)
        else pure tt

  unfoldable pub act_on_backend :
      Bool → TransactionStatus → BackendMessage → Action → M Ctx (Unit {0})
  unfolding relay
  act_on_backend transaction_mode status m Action.forward = relay transaction_mode status m
  act_on_backend transaction_mode status m (Action.reply messages) = do
    send_all messages
    modify count_backend
  act_on_backend transaction_mode status m _ = break client_gone

  -- A dropped row goes no further.
  unfoldable pub relay_phased : Bool → TransactionStatus → BackendMessage → Bool → M Ctx (Unit {0})
  unfolding call_on_backend act_on_backend
  relay_phased transaction_mode status m true = next_iteration
  relay_phased transaction_mode status m false = do
    hooks ← gets (λ p. p.hooks)
    answer ← call_on_backend ic m hooks
    act_on_backend transaction_mode status (answer.0) (answer.1)

  unfoldable pub server_message : Bool → UpstreamLease → BackendMessage → M Ctx (Unit {0})
  unfolding track phase_message relay_phased
  server_message transaction_mode l m = do
    modify (track transaction_mode l m)
    status ← gets (λ p. lease_status p.lease)
    hooks ← gets (λ p. p.hooks)
    phased ← phase_message ic m hooks
    relay_phased transaction_mode status (phased.0) (phased.1)

  unfoldable pub after_upstream_loss : RetryDecision → M Ctx (Unit {0})
  unfolding synthesize_upstream_lost destroy_lease
  after_upstream_loss RetryDecision.close = break upstream_broken
  after_upstream_loss RetryDecision.relink = do
    modify unlink
    awaiting ← gets (λ p. p.hygiene.awaiting_response)
    if awaiting then synthesize_upstream_lost ic else pure tt
    modify nothing_in_flight
    next_iteration

  -- The connection was closed by the server.
  unfoldable pub upstream_lost : M Ctx (Unit {0})
  unfolding dispatch_on_upstream_error after_upstream_loss
  upstream_lost = do
    endpoint ← gets (λ p. or_empty p.current_endpoint)
    decision ←
        dispatch_on_upstream_error ic
          (UpstreamError.connection_lost endpoint "upstream closed unexpectedly")
    after_upstream_loss decision
