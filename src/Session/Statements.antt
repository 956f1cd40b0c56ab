-- ===== src/Session/Statements.antt =====
-- `StatementRegistry` of crates/pgferry/src/session.rs, and the replay of a session's state onto a
-- fresh connection: GUC overrides and named statements. A `HashMap` is walked in the order of its
-- association list.
use pgferry.Prelude.{
  ℕ, String, Option, none, some, List, [], ◌∷◌, Bool, true, false, lookup, insert, remove, str_eq,
  if◌then◌else◌,
}
use pgferry.Wire.{
  FrontendMessage, parse, bind, sync, ready_for_query, parameter_status, error_response,
}
use pgferry.Conn.{Conn, Item, received, broken, pause, hang, send}
use pgferry.Pool.Sanitize.{SimpleQuery, Answer, answered, conn_of, ◌>>=◌}
use pgferry.Pool.Parameters.{set_statement, value_or_empty}
use pgferry.Session.{Registry}

unfoldable pub record_parse : String → String → List ℕ → Registry → Registry
record_parse name sql oids r = insert name (sql, oids) r

unfoldable pub record_close : String → Registry → Registry
record_close name r = remove name r

-- `Parse` for every statement, each buffered on the connection.
unfoldable pub feed_all : Registry → Conn → Option Conn
feed_all [] c = some c
feed_all ((name, (sql, oids)) ∷ r) c = send (parse (some name) sql oids) c >>= feed_all r

-- Read to ReadyForQuery; an ErrorResponse, or the end of the stream, fails the replay.
unfoldable pub replay_items : List Item → Conn → Option Conn
replay_items [] c = none
replay_items (received (ready_for_query s) ∷ rest) c =
    some (record c { status = s; incoming = rest })
replay_items (received (parameter_status n v) ∷ rest) c =
    replay_items rest (record c { parameters = insert n v c.parameters })
replay_items (received (error_response e) ∷ rest) c = none
replay_items (received m ∷ rest) c = replay_items rest c
replay_items (broken ∷ rest) c = none
replay_items (pause ∷ rest) c = replay_items rest c
replay_items (hang ∷ rest) c = replay_items rest c

abbrev read_replay : Conn → Option Conn
read_replay c = replay_items c.incoming c

unfoldable pub replay : Registry → Conn → Option Conn
unfolding feed_all replay_items
replay [] c = some c
replay (s ∷ r) c = do c₁ ← feed_all (s ∷ r) c; c₂ ← send sync c₁; read_replay c₂

-- How the replay of the GUC overrides went: the connection, and whether a `SET` was run on it; or
-- the parameter at which it failed.
pub data Replayed : Type 0 where
  replayed : Conn → Bool → Replayed
  failed_at : String → Bool → Replayed

abbrev set_guc : String → Answer → Option Conn
set_guc name a = conn_of a

unfoldable pub replay_gucs : SimpleQuery → List (String × String) → Bool → Conn → Replayed
replay_gucs q [] dirty c = replayed c dirty
replay_gucs q ((name, value) ∷ rest) dirty c =
    elim (str_eq (value_or_empty (lookup name c.parameters)) value) [
      | true ↦ replay_gucs q rest dirty c
      | false ↦ elim (q (set_statement name value) c) [
        | answered c' ↦ replay_gucs q rest true c'
        | _ ↦ failed_at name dirty
      ]
    ]

-- `bind_statement_sql`: the SQL behind a Bind of a registered statement.
unfoldable pub bind_statement_sql : FrontendMessage → Registry → Option String
bind_statement_sql (bind (some name)) r =
    if str_eq name ""
    then none
    else elim (lookup name r) [ none ↦ none | some (sql, oids) ↦ some sql ]
bind_statement_sql m r = none
