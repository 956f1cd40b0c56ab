-- ===== src/Wire.antt =====
-- The wire-protocol messages that the proxy looks into (pgwire's types, with the fields that the
-- session, the pool and the scatter code read), and the errors that the proxy writes itself.
use pgferry.Prelude.{ℕ, String, Option, List, Bool, true, false}

pub data TransactionStatus : Type 0 where
  idle transaction failed : TransactionStatus

abbrev pub is_idle : TransactionStatus → Bool
is_idle idle = true
is_idle transaction = false
is_idle failed = false

-- The message of an error: one constructor for each text of the source, with what it interpolates
-- (a pgwire error's own text is left out where only its presence matters), and `remote` for a text that a server or a hook wrote.
pub data Message : Type 0 where
  upstream_connection_lost : Message
  all_endpoints_failed : Message
  unknown_upstream_endpoint : String → Message
  failed_to_connect : String → Message
  failed_to_prepare : Message
  unknown_scatter_endpoint : String → Message
  shard_failed : String → Message
  shard_connect_failed : Option String → Message
  sum_not_numeric client_lost : Message
  failed_to_replay_guc : String → Message
  failed_to_replay_statements : Message
  statement_exists : String → Message
  scatter_simple_only : Message
  scatter_in_transaction : Message
  expected_startup unsupported_replication no_user baseline_failed : Message
  unsupported_protocol : ℕ → ℕ → Message
  unknown_admin_command : List ℕ → Message
  admin_simple_only : Message
  remote : String → Message

-- pgwire's `ErrorInfo`: severity, SQLSTATE code, message.
pub record ErrorInfo : Type 0 where
  pub severity : String
  pub code : String
  pub message : Message

pub record ColumnMeta : Type 0 where
  pub name : String
  pub type_oid : ℕ
  pub format : ℕ

-- Raw bytes of the columns, and their number.
pub record DataRow : Type 0 where
  pub bytes : List ℕ
  pub field_count : ℕ

-- Client to server. `close` keeps the name only, as the session reads it; `other` stands for the
-- kinds that the session only forwards (Describe, Execute, start-up packets, ...).
pub data FrontendMessage : Type 0 where
  query : String → FrontendMessage
  parse : Option String → String → List ℕ → FrontendMessage
  bind : Option String → FrontendMessage
  close : Option String → FrontendMessage
  flush sync terminate : FrontendMessage
  copy_data copy_done copy_fail : FrontendMessage
  other : ℕ → FrontendMessage

-- Server to client. A command tag is its bytes.
pub data BackendMessage : Type 0 where
  ready_for_query : TransactionStatus → BackendMessage
  parameter_status : String → String → BackendMessage
  error_response : ErrorInfo → BackendMessage
  row_description : List ColumnMeta → BackendMessage
  data_row : DataRow → BackendMessage
  command_complete : List ℕ → BackendMessage
  parse_complete close_complete : BackendMessage
  copy_in_response copy_out_response copy_both_response : BackendMessage
  other : ℕ → BackendMessage
