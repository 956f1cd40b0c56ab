-- ===== src/Admin.antt =====
-- The admin console (crates/pgferry/src/admin.rs): `SHOW POOLS`, `SHOW CLIENTS`, `SHOW STATS`. Cells are
-- bytes. Given are pgwire's row encoder, `to_lowercase`, and how a duration is printed.
pub mod Answers
use pgferry.Prelude.{
  ℕ, suc, ◌-◌, ◌^◌, String, Option, none, some, List, [], ◌∷◌, ◌++◌, map, Bool, true, false, not,
  ◌&&◌, if◌then◌else◌, str_eq, length, ltb, ◌==◌,
}
use pgferry.Prelude.Decimal.{print}
use pgferry.Prelude.Text.{codes, utf8, trim, trim_end_by, equal}
use pgferry.Metrics.{print_signed, database_or_empty}
use pgferry.Pool.{Pool, PoolKey}
use pgferry.Runtime.{SessionInfo}
use pgferry.Session.{Downstream, End, client_gone}
use pgferry.Session.Effects.{try_send}
use pgferry.Session.Events.{Event, from_client, client_eof, client_garbage, shutdown_signaled}
use pgferry.Wire.{
  ErrorInfo, ColumnMeta, DataRow, BackendMessage, row_description, data_row, command_complete,
  error_response, ready_for_query, query, sync, terminate, FrontendMessage, unknown_admin_command,
  admin_simple_only,
}
use pgferry.Wire

abbrev pub Cells : Type 0
Cells = List (List ℕ)

pub record Encoders : Type 0 where
  pub take_row : Cells → DataRow
  pub to_lowercase : List ℕ → List ℕ
  pub show_elapsed : ℕ → List ℕ

-- What the console reads of the proxy's shared state when a query comes.
pub record View : Type 0 where
  pub pools : List Pool
  pub sessions : List SessionInfo
  pub now : ℕ

-- A pid is the bit pattern of an `i32`.
abbrev print_i32 : ℕ → List ℕ
print_i32 n = if ltb n (2 ^ 31) then print n else b'-' ∷ print (2 ^ 32 - n)

-- A column of type TEXT.
abbrev pub text_column : String → ColumnMeta
text_column name = record { name = name; type_oid = 25; format = 0 }

abbrev pub pool_columns : List String
pool_columns =
    "database" ∷ "user" ∷ "route" ∷ "cl_active" ∷ "cl_waiting" ∷ "sv_active" ∷ "sv_idle"
    ∷ "max_size" ∷ []

abbrev pub client_columns : List String
client_columns = "pid" ∷ "client" ∷ "user" ∷ "database" ∷ "kind" ∷ "state" ∷ "connected_for" ∷ []

abbrev pub stats_columns : List String
stats_columns =
    "database" ∷ "user" ∷ "checkouts" ∷ "reused" ∷ "created" ∷ "checked_in" ∷ "dropped" ∷ "evicted"
    ∷ "probed" ∷ []

-- The parameters that the console's handshake reports; `version` is the package's. In the order of
-- the keys.
abbrev pub admin_parameters : String → List (String × String)
admin_parameters version =
    ("DateStyle", "ISO, MDY")
    ∷ ("client_encoding", "UTF8")
    ∷ ("integer_datetimes", "on")
    ∷ ("is_superuser", "on")
    ∷ ("server_encoding", "UTF8")
    ∷ ("server_version", version)
    ∷ ("standard_conforming_strings", "on")
    ∷ []

module _ (enc : Encoders) where
  unfoldable pub text_result : List String → List Cells → String → List BackendMessage
  unfolding print
  text_result columns rows tag =
      row_description (map text_column columns)
      ∷ (map (λ (r : Cells). data_row (enc.take_row r)) rows
          ++ command_complete (codes tag ++ (b' ' ∷ print (length rows))) ∷ [])

  unfoldable pub is_client_of : PoolKey → SessionInfo → Bool
  is_client_of key s =
      not s.is_admin
      && (str_eq s.user key.user && str_eq s.database (database_or_empty key.database))

  -- `filter(..).count()`.
  unfoldable pub clients : PoolKey → List SessionInfo → ℕ
  unfolding is_client_of
  clients key [] = 0
  clients key (s ∷ ss) = let rest = clients key ss in if is_client_of key s then suc rest else rest

  unfoldable pub pool_row : List SessionInfo → Pool → Cells
  unfolding clients print_signed
  pool_row sessions p =
      utf8 (database_or_empty p.key.database)
      ∷ utf8 p.key.user
      ∷ utf8 p.key.route
      ∷ print (clients p.key sessions)
      ∷ print_signed p.metrics.waiting
      ∷ print_signed p.metrics.active
      ∷ print (length p.idle)
      ∷ print p.config.max_size
      ∷ []

  unfoldable pub show_pools : View → List BackendMessage
  unfolding text_result pool_row
  show_pools v = text_result pool_columns (map (pool_row v.sessions) v.pools) "SHOW"

  unfoldable pub client_row : ℕ → SessionInfo → Cells
  client_row now s =
      print_i32 s.pid
      ∷ utf8 s.addr
      ∷ utf8 s.user
      ∷ utf8 s.database
      ∷ (if s.is_admin then codes "admin" else codes "client")
      ∷ (if s.attached then codes "attached" else codes "idle")
      ∷ enc.show_elapsed (now - s.started)
      ∷ []

  unfoldable pub show_clients : View → List BackendMessage
  unfolding text_result client_row
  show_clients v = text_result client_columns (map (client_row v.now) v.sessions) "SHOW"

  unfoldable pub stats_row : Pool → Cells
  stats_row p =
      utf8 (database_or_empty p.key.database)
      ∷ utf8 p.key.user
      ∷ print p.metrics.checkouts
      ∷ print p.metrics.reused
      ∷ print p.metrics.created
      ∷ print p.metrics.checked_in
      ∷ print p.metrics.dropped
      ∷ print p.metrics.evicted
      ∷ print p.metrics.probed
      ∷ []

  unfoldable pub show_stats : View → List BackendMessage
  unfolding text_result stats_row
  show_stats v = text_result stats_columns (map stats_row v.pools) "SHOW"

  unfoldable pub show_help : List BackendMessage
  unfolding text_result
  show_help =
      text_result ("command" ∷ [])
        ((codes "SHOW POOLS" ∷ [])
          ∷ (codes "SHOW CLIENTS" ∷ [])
          ∷ (codes "SHOW STATS" ∷ [])
          ∷ (codes "SHOW HELP" ∷ [])
          ∷ [])
        "SHOW"

  unfoldable pub command_of : List ℕ → List ℕ
  unfolding trim trim_end_by
  command_of sql = enc.to_lowercase (trim (trim_end_by (λ c. c == b';') (trim sql)))

  abbrev pub unknown : List ℕ → ErrorInfo
  unknown command = record {
    severity = "ERROR";
    code = "42601";
    message = unknown_admin_command command;
  }

  -- What a query is answered with, in front of ReadyForQuery.
  unfoldable pub outcome : View → List ℕ → List BackendMessage
  unfolding show_pools show_clients show_stats show_help equal
  outcome v command =
      if equal command (codes "show pools")
      then show_pools v
      else if equal command (codes "show clients")
      then show_clients v
      else if equal command (codes "show stats")
      then show_stats v
      else if equal command (codes "show help")
      then show_help
      else if equal command (codes "help")
      then show_help
      else error_response (unknown command) ∷ []

  -- `downstream.send(..).await?` for each message: whether all were sent.
  unfoldable pub send_each : List BackendMessage → Downstream → Bool × Downstream
  unfolding try_send
  send_each [] d = (true, d)
  send_each (m ∷ ms) d = elim (try_send m d) [ none ↦ (false, d) | some d' ↦ send_each ms d' ]

  unfoldable pub dispatch : View → List ℕ → Downstream → Bool × Downstream
  unfolding send_each outcome command_of
  dispatch v sql d = send_each (outcome v (command_of sql) ++ ready_for_query Wire.idle ∷ []) d

  -- `let _ = send_ready_for_query(..).await`.
  unfoldable pub ready_or_ignore : Downstream → Downstream
  unfolding try_send
  ready_or_ignore d = elim (try_send (ready_for_query Wire.idle) d) [ none ↦ d | some d' ↦ d' ]

  abbrev pub simple_only : BackendMessage
  simple_only =
      error_response (record { severity = "ERROR"; code = "0A000"; message = admin_simple_only })

  -- One message of the client, and whether the session goes on.
  unfoldable pub on_message : View → FrontendMessage → Downstream → Bool × Downstream
  unfolding dispatch ready_or_ignore try_send
  on_message v terminate d = (false, d)
  on_message v sync d = (true, ready_or_ignore d)
  on_message v (query sql) d = dispatch v (codes sql) d
  on_message v m d = elim (try_send simple_only d) [
    | none ↦ (false, d)
    | some d' ↦ (true, ready_or_ignore d')
  ]

  unfoldable pub on_event : View → Event → Downstream → Bool × Downstream
  unfolding on_message
  on_event v (from_client m) d = on_message v m d
  on_event v client_eof d = (false, d)
  on_event v client_garbage d = (false, d)
  on_event v shutdown_signaled d = (false, d)
  on_event v _ d = (true, d)

  -- The loop of `run_admin_session`: how the session ended, if it did.
  unfoldable pub run_admin : List (View × Event) → Downstream → Option End × Downstream
  unfolding on_event
  run_admin [] d = (none, d)
  run_admin ((v, e) ∷ es) d =
      let (goes_on, d') = on_event v e d in
      let later = run_admin es d' in if goes_on then later else (some client_gone, d')
