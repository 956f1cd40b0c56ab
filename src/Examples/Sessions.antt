-- ===== src/Examples/Sessions.antt =====
-- The theorems on sessions and rows, applied.
use pgferry.Prelude.{
  ℕ, ◌≡◌, refl, ◌≢◌, ◌-◌, Option, none, some, List, [], ◌∷◌, ◌++◌, true, false, not, ◌||◌, arith,
  lookup, is_some, is_none,
}
use pgferry.Prelude.Decimal.{print}
use pgferry.Wire.{
  query, parse, bind, sync, FrontendMessage, BackendMessage, ready_for_query, command_complete,
  DataRow, other,
}
use pgferry.Wire
use pgferry.Intercept.Rows
use pgferry.Intercept.Rows.{DataRowMut, owned, range, apply}
use pgferry.Intercept.Rows.Encoding.{columns, parse-apply}
use pgferry.Session.{Pump, panicked, Release, SessionHooks, default_cycle}
use pgferry.Session.Effects.{ok, ◌>>=◌, route_hooks, gets, modify, pure}
use pgferry.Session.Statements.{replay, replay_gucs}
use pgferry.Config.{endpoint}
use pgferry.Pool.Parameters.{sync_startup_parameters}
use pgferry.Session.Attach.{ensure_attached, is_empty}
use pgferry.Session.Client.{client_message}
use pgferry.Session.Server.{adjust_tag, with_status}
use pgferry.Session.Relay.{server_message}
use pgferry.Session.Events.{
  Event, from_client, from_server, server_eof, cancel_requested, run, new_pump,
}
use pgferry.Session.Sound.{Inv}
use pgferry.Session.Sound.Attaching.{ensure_attached-leases}
use pgferry.Session.Sound.Whole.{run-Inv}
use pgferry.Session.Answers.{
  leasing, written, writable, batch, adjust_tag-print, run-recovers, server_message-detaches,
}
use pgferry.Session.Passing.{client_message-forwards}
use pgferry.Examples.{env, one_route, down, hooks, lease, detached_session}

abbrev session_hooks : Option (SessionHooks (Unit {0}))
session_hooks = some (record { ctx = tt; schema = []; cycle = default_cycle 0 })

-- A named statement, its execution, the answer, and the loss of the server while it owes another.
abbrev events : List (ℕ × Event)
events =
    (1, from_client (parse (some "by_id") "SELECT 1" []))
    ∷ (2, from_client (bind (some "by_id")))
    ∷ (3, from_client sync)
    ∷ (4, from_server (command_complete (83 ∷ 32 ∷ 49 ∷ [])))
    ∷ (5, from_server (ready_for_query Wire.idle))
    ∷ (6, from_client (query "SELECT 2"))
    ∷ (7, cancel_requested)
    ∷ (8, server_eof)
    ∷ []

run-Inv_example :
    let r = run hooks env events (new_pump one_route 0 none down session_hooks) in
    (r.0 ≢ some panicked)
    × ((not r.1.attached || is_some r.1.lease) ≡ true)
    × ((is_none r.1.lease || (r.1.lease_dirty || is_empty r.1.registry)) ≡ true)
run-Inv_example = run-Inv hooks env 0 none down session_hooks events

abbrev attached_session : Pump (Unit {0})
attached_session = (ensure_attached hooks env (some "SELECT 1") detached_session).1

detached_keeps : Inv detached_session
unfolding new_pump
detached_keeps = (refl, refl, λ v. refl)

attaches :
    ensure_attached hooks env (some "SELECT 1") detached_session ≡ (ok true, attached_session)
unfolding ensure_attached new_pump ◌>>=◌ endpoint route_hooks sync_startup_parameters lookup gets
    replay_gucs modify replay pure
attaches = refl

ensure_attached-leases_example :
    (is_some attached_session.lease ≡ true)
    × ((attached_session.lease_dirty || is_empty attached_session.registry) ≡ true)
ensure_attached-leases_example =
    ensure_attached-leases hooks env (some "SELECT 1") detached_session attached_session
      detached_keeps attaches

abbrev begin : FrontendMessage
begin = query "BEGIN"

client_message-forwards_example :
    let q =
      client_message hooks env begin (
        leasing false 3
          (writable lease)
          (record detached_session { swallow_until_sync = false })) in
    (q.0 ≡ ok tt)
    × (q.1.lease ≡ some (written begin (writable lease)))
    × (q.1.down.sent ≡ [])
    × (q.1.registry ≡ [])
    × (q.1.hygiene.awaiting_response ≡ true)
    × (q.1.attached ≡ true)
unfolding new_pump
client_message-forwards_example =
    client_message-forwards hooks env begin false 3 lease detached_session refl

server_message-detaches_example :
    let q =
      server_message hooks true lease
        (ready_for_query Wire.idle)
        (leasing false 3 lease detached_session) in
    (q.1.down.sent ≡ ready_for_query Wire.idle ∷ [])
    × (q.0 ≡ ok tt)
    × (q.1.lease ≡ none)
    × (q.1.released ≡ Release.detached (with_status Wire.idle lease) false ∷ [])
unfolding new_pump
server_message-detaches_example =
    server_message-detaches hooks false true Wire.idle 3 lease detached_session

abbrev recovering : Pump (Unit {0})
recovering = record detached_session { swallow_until_sync = true }

run-recovers_example :
    let q =
      run hooks env
        (batch 7 (bind none ∷ other 69 ∷ []) ++ (7, from_client sync) ∷ [])
        (record recovering { now = 7 }) in
    (q.0 ≡ none)
    × (q.1.down.sent ≡ recovering.down.sent ++ ready_for_query Wire.idle ∷ [])
    × (q.1.swallow_until_sync ≡ false)
    × (q.1.lease ≡ none)
unfolding new_pump
run-recovers_example =
    run-recovers hooks env 7 8 (bind none ∷ other 69 ∷ []) recovering refl
      (λ e. cc e, λ e. cc e, (λ e. cc e, λ e. cc e, tt)) refl

-- `SELECT 12`, of which 5 rows were dropped.
adjust_tag-print_example :
    adjust_tag ((83 ∷ 69 ∷ []) ++ 32 ∷ print 12) 5 ≡ (83 ∷ 69 ∷ []) ++ 32 ∷ print (12 - 5)
adjust_tag-print_example = adjust_tag-print (83 ∷ 69 ∷ []) 12 5 (omega arith)

-- Two columns, the second NULL, the first masked.
abbrev masked : DataRowMut
masked = record {
  row = record { bytes = 0 ∷ 0 ∷ 0 ∷ 2 ∷ 52 ∷ 50 ∷ 255 ∷ 255 ∷ 255 ∷ 255 ∷ []; field_count = 2 };
  values = some (owned (42 ∷ 42 ∷ 42 ∷ [])) ∷ none ∷ [];
  modified = true;
}

parse-apply_example :
    (d : DataRowMut) × (Rows.parse (apply masked) ≡ some d) × (columns d ≡ columns masked)
unfolding Rows.value_bytes
parse-apply_example = parse-apply masked refl refl (omega arith, tt)
