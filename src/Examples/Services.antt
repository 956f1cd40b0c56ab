-- ===== src/Examples/Services.antt =====
-- The theorems on the registries, the metrics endpoint, the tasks and the audit, applied.
use pgferry.Prelude.{
  ℕ, ◌+◌, ◌%◌, ◌^◌, ◌≤◌, ◌≡◌, refl, String, Option, some, none, List, [], ◌∷◌, ◌++◌, true, false,
  arith, length,
}
use pgferry.Prelude.Text.{codes, utf8, equal}
use pgferry.Intercept.{CycleReport, simple}
use pgferry.Intercept.Builtin.{new_audit}
use pgferry.Intercept.Builtin.Recent.{Tells, record_all, record_all-sums}
use pgferry.Cancel
use pgferry.Cancel.{Key, SessionMap, cancel, recv, unregister}
use pgferry.Cancel.Signals.{cancel-signals}
use pgferry.Runtime
use pgferry.Runtime.{SessionInfo, RuntimeState, sessions_active}
use pgferry.Runtime.Live.{
  Sessions, Reach, here, next, registers, drops, came, went, History, nobody, Reach-refines,
}
use pgferry.Metrics.{read_head, labels}
use pgferry.Metrics.Labels.{read_labels, read_labels-labels}
use pgferry.Pool.{PoolKey}
use pgferry.Metrics.Reads.{Bounded, read_head-bounds}
use pgferry.Proxy.Accept.{
  Event, slot_acquired, accepted, session_ended, started, run, on_event, AcceptLoop, accepting,
  held,
}
use pgferry.Proxy.Slots.{run-bounds}

abbrev web : SessionInfo
web = record {
  pid = 41;
  addr = "10.0.0.1:50000";
  user = "app";
  database = "orders";
  is_admin = false;
  attached = false;
  started = 0;
}

abbrev web_only : RuntimeState
web_only = Runtime.register web Runtime.new

only_web : web_only.sessions ≡ [] ++ web ∷ []
unfolding Runtime.register Runtime.new
only_web = refl

-- A session comes and goes.
web_history : Reach Runtime.new (went web ∷ came web ∷ []) (Runtime.unregister 41 web_only)
unfolding Runtime.new
web_history = next (next here (registers web tt)) (drops [] web [] only_web)

Reach-refines_example :
    let r = Runtime.unregister 41 web_only in
    (a : Sessions) × History nobody (went web ∷ came web ∷ []) a
    × (r.sessions ≡ a.live)
    × (sessions_active r ≡ length a.live)
    × (r.sessions_total ≡ a.seen % 2 ^ 64)
Reach-refines_example = Reach-refines web_history

abbrev mine : Key
mine = record { pid = 41; secret_key = 1 ∷ 2 ∷ [] }

abbrev theirs : Key
theirs = record { pid = 41; secret_key = 1 ∷ 3 ∷ [] }

abbrev two_sessions : SessionMap
two_sessions = (theirs, false) ∷ (mine, true) ∷ []

mine_registered : Cancel.get mine two_sessions ≡ some true
unfolding Cancel.get Cancel.key_eq equal
mine_registered = refl

keys_apart : Cancel.key_eq theirs mine ≡ false
unfolding Cancel.key_eq equal
keys_apart = refl

cancel-signals_example :
    let signalled = (cancel mine two_sessions).1 in
    let received = (recv mine signalled).1 in
    ((cancel mine two_sessions).0 ≡ true)
    × ((recv mine signalled).0 ≡ true)
    × ((recv mine received).0 ≡ false)
    × (Cancel.get theirs received ≡ Cancel.get theirs two_sessions)
    × ((cancel mine (unregister mine two_sessions)).0 ≡ false)
    × (Cancel.get theirs (unregister mine two_sessions) ≡ Cancel.get theirs two_sessions)
cancel-signals_example = cancel-signals mine theirs true two_sessions mine_registered keys_apart

abbrev quoted_key : PoolKey
quoted_key = record { route = "main"; endpoint = "primary"; user = "a\"b"; database = none }

read_labels-labels_example :
    read_labels (labels quoted_key ++ codes "} 7")
    ≡ some (utf8 "main", utf8 "a\"b", utf8 "", codes "} 7")
read_labels-labels_example = read_labels-labels quoted_key (codes "} 7")

abbrev request : List (Option (List ℕ))
request = some (codes "GET /metrics HTTP/1.1\r\n") ∷ some (codes "\r\n") ∷ []

read_head-bounds_example : Bounded (length request) (read_head [] request)
read_head-bounds_example = read_head-bounds request (omega arith, (omega arith, tt))

abbrev one_client : List Event
one_client = slot_acquired ∷ accepted ∷ slot_acquired ∷ session_ended ∷ []

abbrev one_slot_free : AcceptLoop
one_slot_free = record { phase = accepting; client_slots = 1; slot = true; sessions = 0 }

one_client-run : run one_client (started 2) ≡ some one_slot_free
unfolding run on_event started
one_client-run = refl

run-bounds_example :
    (one_slot_free.sessions ≤ 2)
    × (one_slot_free.client_slots + held one_slot_free + one_slot_free.sessions ≡ 2)
run-bounds_example = run-bounds 2 one_client one_slot_free one_client-run

abbrev second : List (String × String)
second = ("replica", "host=b") ∷ []

abbrev report : ℕ → CycleReport
report rows = record {
  sql = none;
  kind = simple;
  tag = none;
  rows = rows;
  rows_dropped = 0;
  error = none;
  latency = 3000;
}

record_all-sums_example :
    Tells (report 5 ∷ report 6 ∷ []) (record_all (report 5 ∷ report 6 ∷ []) new_audit)
record_all-sums_example = record_all-sums (report 5 ∷ report 6 ∷ [])
