-- ===== src/Scatter.antt =====
-- Scatter-gather of crates/pgferry/src/scatter.rs: the legs' outcomes, `run_query_collect`,
-- `run_leg_pooled`, and `execute_scatter` over the state of a session. The order in which the pooled
-- legs complete is chosen by the environment.
pub mod Shards
pub mod Merge
pub mod Rows
pub mod Sums
pub mod Legs
pub mod Execute
use pgferry.Prelude.{
  ℕ, ◌+◌, ◌%◌, ◌^◌, String, Option, none, some, List, [], ◌∷◌, ◌++◌, Bool, true, false, insert,
}
use pgferry.Wire.{
  ErrorInfo, Message, remote, shard_connect_failed, query, BackendMessage, ready_for_query,
  parameter_status, error_response, data_row,
}
use pgferry.Conn.{Conn, Item, received, broken, pause, hang, send}
use pgferry.Pool.{UpstreamLease, fetch_add}
use pgferry.Pool.Sanitize.{SimpleQuery}
use pgferry.Pool.Parameters.{sync_startup_parameters}
use pgferry.Session.{Checkout, leased, refused}

-- What one query cycle on a connection came to.
pub record Collected : Type 0 where
  pub conn : Conn
  pub messages : List BackendMessage
  pub rows : ℕ
  pub error : Option ErrorInfo
  pub dirty : Bool
  pub conn_broken : Bool

abbrev pub nothing_yet : Conn → Collected
nothing_yet c = record {
  conn = c;
  messages = [];
  rows = 0;
  error = none;
  dirty = false;
  conn_broken = false;
}

abbrev pub broken_now : Collected → Collected
broken_now r = record r { conn_broken = true }

-- The read loop. No time limit is set on it.
unfoldable pub collect : List Item → Collected → Collected
collect [] r = broken_now r
collect (received (ready_for_query s) ∷ rest) r = record r {
  conn = record (r.conn) { status = s; incoming = rest };
}
collect (received (parameter_status n v) ∷ rest) r = collect rest (record r {
  conn = record (r.conn) { parameters = insert n v r.conn.parameters };
  dirty = true;
})
collect (received (error_response e) ∷ rest) r = collect rest (record r { error = some e })
collect (received (data_row d) ∷ rest) r =
    collect rest (record r { messages = r.messages ++ data_row d ∷ []; rows = fetch_add r.rows 1 })
collect (received m ∷ rest) r = collect rest (record r { messages = r.messages ++ m ∷ [] })
collect (broken ∷ rest) r = broken_now r
collect (pause ∷ rest) r = collect rest r
collect (hang ∷ rest) r = collect rest r

unfoldable pub run_query_collect : String → Conn → Collected
unfolding collect
run_query_collect sql c = elim (send (query sql) c) [
  | none ↦ broken_now (nothing_yet c)
  | some c' ↦ collect c'.incoming (nothing_yet c')
]

-- `taken` is the lease as it was checked out, `lease` the one that is left at the end.
pub record LegOutcome : Type 0 where
  pub endpoint : String
  pub messages : List BackendMessage
  pub rows : ℕ
  pub error : Option ErrorInfo
  pub taken : Option UpstreamLease
  pub lease : Option UpstreamLease
  pub conn_broken : Bool
  pub dirty : Bool

abbrev pub connect_error : Message → ErrorInfo
connect_error m = record { severity = "ERROR"; code = "08006"; message = m }

abbrev pub not_connected : String → Option UpstreamLease → Message → LegOutcome
not_connected endpoint taken m = record {
  endpoint = endpoint;
  messages = [];
  rows = 0;
  error = some (connect_error m);
  taken = taken;
  lease = none;
  conn_broken = true;
  dirty = false;
}

unfoldable pub outcome_of : String → UpstreamLease → Collected → LegOutcome
outcome_of endpoint l r = record {
  endpoint = endpoint;
  messages = r.messages;
  rows = r.rows;
  error = r.error;
  taken = some l;
  lease = elim r.conn_broken [ true ↦ none | false ↦ some (record l { conn = r.conn }) ];
  conn_broken = r.conn_broken;
  dirty = r.dirty;
}

-- The leg behind its checkout, once the parameters are sent or not.
unfoldable pub leg_synced : String → String → UpstreamLease → Option Conn → LegOutcome
unfolding outcome_of run_query_collect
leg_synced endpoint sql l none = not_connected endpoint (some l) (shard_connect_failed none)
leg_synced endpoint sql l (some c) = outcome_of endpoint l (run_query_collect sql c)

module _ (simple_query : SimpleQuery) (startup : List (String × String)) where
  unfoldable pub run_leg_pooled : String → String → Checkout → LegOutcome
  unfolding leg_synced
  run_leg_pooled endpoint sql (refused e) =
      not_connected endpoint none (shard_connect_failed (some e))
  run_leg_pooled endpoint sql (leased l) =
      leg_synced endpoint sql l (sync_startup_parameters simple_query startup l.conn)
