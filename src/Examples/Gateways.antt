-- ===== src/Examples/Gateways.antt =====
-- The theorems on the gateway, applied.
use pgferry.Prelude.{
  ℕ, ◌≡◌, refl, String, Option, none, some, [], ◌∷◌, ◌++◌, true, false, ◌||◌, str_eq, if◌then◌else◌,
  length, is_some,
}
use mathlib.Core.Option
use pgferry.Wire.{query, error_response, ready_for_query}
use pgferry.Intercept.{keep, RowSchema}
use pgferry.Intercept.Builtin.{any_match, new_audit, deny_list, compile_all, rewrite_with}
use pgferry.Intercept.Rows.{DataRowMut, range}
use pgferry.Intercept.Rows.Columns.{text}
use pgferry.Pool.{PoolMode}
use pgferry.Proxy.{Proxy, service}
use pgferry.Routing
use pgferry.Routing.Split
use pgferry.Session.{SessionHooks, Pump, default_cycle}
use pgferry.Session.Events.{new_pump}
use pgferry.Session.Client.{client_message}
use pgferry.Session.Effects.{ok, skip, lease_status}
use pgferry.Session.Answers.{writable, written}
use pgferry.Gateway.{Gateway, Library, GatewayState, on_row, gateway, spread}
use pgferry.Gateway.Masking.{hide, is_named, on_row-masks}
use pgferry.Gateway.Asking.{listening, denial, denial_report, noted_denial, client_message-denies}
use pgferry.Gateway.Rewriting.{after_rewrites, client_message-rewrites}
use pgferry.Gateway.Options.{Options}
use pgferry.Gateway.Main.{
  gateway_of, compile_optional, compile_rewrites, initial_state, runs, start_up,
}
use pgferry.Gateway.Main.Built.{endpoints_of, start_up-runs}
use pgferry.Examples.{env, one_route, down, lease}

-- A pattern is a text, and matches just that text.
abbrev library : Library String
library = record {
  compile = λ pattern. some "DROP TABLE t";
  is_match = λ pattern sql. str_eq pattern sql;
  replace_all = λ pattern sql replacement. replacement;
  to_lowercase = λ text. text;
  is_utf8 = λ bytes. true;
}

abbrev guard : Gateway String
guard = record {
  denied = record {
    patterns = "DROP TABLE t" ∷ [];
    code = "42501";
    message = "insufficient privilege (pgferry deny-list)";
  };
  rewrites =
      record { pattern = "SELECT 1"; replacement = "SELECT 2" }
      ∷ record { pattern = "SELECT 2"; replacement = "SELECT 3" }
      ∷ [];
  mask_columns = "email" ∷ [];
  rw_split = none;
  shards = none;
  shard_all = none;
}

abbrev idle_state : GatewayState
idle_state = record { group = Routing.new ("primary" ∷ []); audit = new_audit; reports = [] }

abbrev guarded : SessionHooks GatewayState
guarded = record { ctx = idle_state; schema = []; cycle = default_cycle 0 }

abbrev session : Pump GatewayState
session = new_pump one_route 0 none down none

client_message-denies_example :
    let q =
      client_message
        (gateway library 5 guard)
        env
        (query "DROP TABLE t")
        (listening guarded 3 session) in
    (q.0 ≡ skip)
    × (q.1.down.sent
        ≡ (session.down.sent ++ error_response (denial guard) ∷ [])
          ++ ready_for_query (lease_status session.lease) ∷ [])
    × (Option.map (λ k. k.ctx) q.1.hooks
        ≡ some (noted_denial (denial_report guard "DROP TABLE t" 0) idle_state))
    × (q.1.lease ≡ session.lease)
    × (q.1.checkouts ≡ session.checkouts)
    × (q.1.released ≡ session.released)
    × (q.1.registry ≡ session.registry)
unfolding any_match
client_message-denies_example =
    client_message-denies library 5 guard env "DROP TABLE t" guarded 3 session refl

client_message-rewrites_example :
    let new_sql = after_rewrites library guard.rewrites "SELECT 1" in
    let q =
      client_message
        (gateway library 5 guard)
        env
        (query "SELECT 1")
        (listening guarded 3 (record session { lease = some (writable lease) })) in
    (q.0 ≡ ok tt)
    × (q.1.lease ≡ some (written (query new_sql) (writable lease)))
    × (Option.map (λ k. k.cycle.sql) q.1.hooks ≡ some (some new_sql))
    × (Option.map (λ k. k.ctx) q.1.hooks ≡ some idle_state)
    × (q.1.down.sent ≡ session.down.sent)
    × (q.1.checkouts ≡ session.checkouts)
    × (q.1.released ≡ session.released)
unfolding any_match spread
client_message-rewrites_example =
    client_message-rewrites library 5 guard env "SELECT 1" guarded 3 lease session refl refl

abbrev schema : RowSchema
schema =
    record { name = "id"; type_oid = 23; format = 0 }
    ∷ record { name = "email"; type_oid = 25; format = 0 }
    ∷ []

-- Two columns, `7` and `a`.
abbrev row : DataRowMut
row = record {
  row = record { bytes = 0 ∷ 0 ∷ 0 ∷ 1 ∷ b'7' ∷ 0 ∷ 0 ∷ 0 ∷ 1 ∷ b'a' ∷ []; field_count = 2 };
  values = some (range 4 1) ∷ some (range 9 1) ∷ [];
  modified = false;
}

on_row-masks_example :
    let (row', action) = on_row library guard schema row in
    (action ≡ keep)
    × (length row'.values ≡ length row.values)
    × (text library.is_utf8 1 row'
        ≡ hide (is_named guard.mask_columns schema 1) (text library.is_utf8 1 row))
on_row-masks_example = on_row-masks library guard schema 1 row refl

abbrev options : Options
options = record {
  listen = "127.0.0.1:7432";
  upstream = none;
  endpoints = ("primary", "host=10.0.0.1") ∷ ("replica", "host=10.0.0.2") ∷ [];
  rw_split_primary = some "primary";
  shard_all = none;
  deny = "DROP" ∷ [];
  rewrites = ("a", "b") ∷ [];
  mask_columns = "email" ∷ "phone" ∷ [];
}

abbrev address : String → Option ℕ
address given = some 7432

abbrev compiled : Gateway String
compiled = record {
  denied = record {
    patterns = "DROP TABLE t" ∷ [];
    code = "42501";
    message = "insufficient privilege (pgferry deny-list)";
  };
  rewrites = record { pattern = "DROP TABLE t"; replacement = "b" } ∷ [];
  mask_columns = "email" ∷ "phone" ∷ [];
  rw_split = some (Split.new (Routing.new ("primary" ∷ "replica" ∷ [])) "primary");
  shards = none;
  shard_all = none;
}

compiles : gateway_of library.compile options ≡ some compiled
unfolding gateway_of compile_optional deny_list compile_all compile_rewrites rewrite_with Split.new
    Routing.new
compiles = refl

start_up-runs_example :
    (proxy : Proxy ℕ (Gateway String × GatewayState)) × (start_up library.compile address options
      ≡ runs proxy)
    × (proxy.config.listen_addr ≡ 7432)
    × (proxy.config.route.endpoints ≡ endpoints_of options.upstream options.endpoints)
    × (proxy.config.pool.mode ≡ (
        if is_some options.rw_split_primary || is_some options.shard_all
        then PoolMode.transaction
        else PoolMode.session))
    × (proxy.interceptor ≡ some (service (compiled, initial_state options)))
start_up-runs_example =
    start_up-runs library.compile address options compiled 7432 compiles refl refl
