-- ===== src/Pool/Parameters.antt =====
-- Session parameters replayed with `SET` (crates/pgferry/src/pool.rs): `set_parameter` and
-- `UpstreamLease::sync_startup_parameters`. The same statement replays GUC overrides at an attach.
use Prim.Native.Char.{code}
use Prim.Native.String.{String, ◌++◌}
use pgferry.Prelude.{Option, none, some, List, [], ◌∷◌, if◌then◌else◌, ◌==◌, str_eq, lookup}
use pgferry.Conn.{Conn, set_parameter_cache}
use pgferry.Pool.Sanitize.{SimpleQuery, conn_of, ◌>>=◌}

-- `value.replace('\'', "''")`.
unfoldable pub escape_quotes : String → String
escape_quotes String.[] = String.[]
escape_quotes (String.◌∷◌ c s) =
    if code c == 39
    then String.◌∷◌ c (String.◌∷◌ c (escape_quotes s))
    else String.◌∷◌ c (escape_quotes s)

unfoldable pub set_statement : String → String → String
unfolding escape_quotes
set_statement name value = "SET " ++ name ++ " = '" ++ escape_quotes value ++ "'"

abbrev pub tracked_startup_parameters : List String
tracked_startup_parameters = "application_name" ∷ "client_encoding" ∷ []

-- `.get(name).cloned().unwrap_or_default()`.
abbrev pub value_or_empty : Option String → String
value_or_empty none = ""
value_or_empty (some v) = v

module _ (simple_query : SimpleQuery) where
  unfoldable pub set_parameter : String → String → Conn → Option Conn
  set_parameter name value c = do
    c' ← conn_of (simple_query (set_statement name value) c)
    some (set_parameter_cache name value c')

  unfoldable pub sync_one : String → Option String → Conn → Option Conn
  unfolding set_parameter
  sync_one name none c = some c
  sync_one name (some desired) c =
      if str_eq (value_or_empty (lookup name c.parameters)) desired
      then some c
      else set_parameter name desired c

  unfoldable pub sync_parameters : List String → List (String × String) → Conn → Option Conn
  unfolding sync_one
  sync_parameters [] startup c = some c
  sync_parameters (name ∷ names) startup c =
      sync_one name (lookup name startup) c >>= sync_parameters names startup

  unfoldable pub sync_startup_parameters : List (String × String) → Conn → Option Conn
  unfolding sync_parameters
  sync_startup_parameters = sync_parameters tracked_startup_parameters
