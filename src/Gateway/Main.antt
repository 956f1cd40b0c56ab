-- ===== src/Gateway/Main.antt =====
-- What `main` of crates/pgferry/examples/gateway.rs makes of its options: the interceptor, and the
-- proxy with it.
pub mod Built
use pgferry.Prelude.{
  ℕ, String, Option, none, some, List, [], ◌∷◌, ◌++◌, Bool, true, false, ◌&&◌, ◌||◌, ◌==◌, str_eq,
  if◌then◌else◌, is_some, not,
}
use pgferry.Prelude.Text.{codes}
use pgferry.Pool.{PoolConfig, default_config, transaction}
use pgferry.Intercept.Builtin.{DenyList, deny_list, Rewrite, rewrite_with, new_audit}
use pgferry.Pool.Sanitize.{◌>>=◌}
use pgferry.Routing
use pgferry.Routing.{EndpointGroup}
use pgferry.Routing.Split
use pgferry.Routing.Split.{RwSplit}
use pgferry.Scatter.Shards.{ShardSet}
use pgferry.Proxy
use pgferry.Proxy.{
  Proxy, ConfigError, Parsed, ok, err, ProxyBuilder, builder, pool_config, register, build,
}
use pgferry.Proxy.Build.{with_endpoints}
use pgferry.Gateway.{Gateway, GatewayState}
use pgferry.Gateway.Options.{Options, defaults, nothing, Arguments, read, parse_args}

abbrev ids : List (String × String) → List String
ids [] = []
ids ((id, connstring) ∷ more) = id ∷ ids more

abbrev texts : List String → List (List ℕ)
texts [] = []
texts (s ∷ ss) = codes s ∷ texts ss

abbrev is_empty : List (String × String) → Bool
is_empty [] = true
is_empty (e ∷ es) = false

-- The shards are all the endpoints, when there is a pattern for them.
abbrev pub shards_of : Options → Option ShardSet
shards_of o =
    if is_some o.shard_all && not (is_empty o.endpoints)
    then some (record { shards = ids o.endpoints })
    else none

abbrev pub group_of : Options → EndpointGroup
unfolding Routing.new
group_of o = Routing.new (ids o.endpoints)

abbrev pub split_of : EndpointGroup → Option String → Option RwSplit
unfolding Split.new
split_of group none = none
split_of group (some primary) = some (Split.new group primary)

module _ {Regex : Type 0} (compile : List ℕ → Option Regex) where
  -- `none` is the panic on what is no regular expression.
  unfoldable pub compile_rewrites : List (String × String) → Option (List (Rewrite Regex))
  unfolding rewrite_with
  compile_rewrites [] = some []
  compile_rewrites ((from, to) ∷ more) = elim (rewrite_with compile (codes from) to) [
    | none ↦ none
    | some w ↦ elim (compile_rewrites more) [ none ↦ none | some ws ↦ some (w ∷ ws) ]
  ]

  unfoldable pub compile_optional : Option String → Option (Option Regex)
  compile_optional none = some none
  compile_optional (some p) = elim (compile (codes p)) [ none ↦ none | some r ↦ some (some r) ]

  -- The interceptor; `none` is a panic.
  unfoldable pub gateway_of : Options → Option (Gateway Regex)
  unfolding compile_rewrites compile_optional deny_list group_of split_of
  gateway_of o = do
    shard_all ← compile_optional o.shard_all
    denied ← deny_list compile (texts o.deny)
    rewrites ← compile_rewrites o.rewrites
    some (record {
      denied = denied;
      rewrites = rewrites;
      mask_columns = o.mask_columns;
      rw_split = split_of (group_of o) o.rw_split_primary;
      shards = shards_of o;
      shard_all = shard_all;
    })

unfoldable pub initial_state : Options → GatewayState
unfolding new_audit group_of
initial_state o = record { group = group_of o; audit = new_audit; reports = [] }

abbrev pub default_upstream : Option String → String
default_upstream none = "host=127.0.0.1 port=5432"
default_upstream (some connstring) = connstring

pub data Main (Addr Service : Type 0) : Type 0 where
  runs : Proxy Addr Service → Main Addr Service
  fails : ConfigError Addr → Main Addr Service
  panics : Main Addr Service
  exits : ℕ → Main Addr Service

module _ {Addr Service : Type 0} where
  -- The endpoints one by one, or the one of `--upstream`.
  unfoldable pub with_upstreams :
      Option String → List (String × String) → ProxyBuilder Addr Service → ProxyBuilder Addr Service
  unfolding Proxy.upstream
  with_upstreams upstream [] b = Proxy.upstream (default_upstream upstream) b
  with_upstreams upstream (e ∷ es) b = with_endpoints (e ∷ es) b

  -- A read/write split, or shards: connections are shared by transaction.
  unfoldable pub with_pool : Bool → ProxyBuilder Addr Service → ProxyBuilder Addr Service
  unfolding pool_config
  with_pool uses_split b =
      if uses_split then pool_config (record default_config { mode = transaction }) b else b

  abbrev pub finish : Parsed (Proxy Addr Service) Addr → Main Addr Service
  finish (ok proxy) = runs proxy
  finish (err e) = fails e

  unfoldable pub go_on :
      Options → Service → Parsed (ProxyBuilder Addr Service) Addr → Main Addr Service
  unfolding with_upstreams with_pool register build
  go_on o s (err e) = fails e
  go_on o s (ok b) = finish (
      build (
        register s (
          with_pool (is_some o.rw_split_primary || is_some o.shard_all)
            (with_upstreams o.upstream o.endpoints b))))

module _ {Addr Regex : Type 0} (compile : List ℕ → Option Regex)
    (from_str : String → Option Addr) where
  abbrev pub Service : Type 0
  Service = Gateway Regex × GatewayState

  abbrev pub with_gateway : Option (Gateway Regex) → Options → Main Addr Service
  unfolding initial_state Proxy.listen builder go_on
  with_gateway none o = panics
  with_gateway (some g) o = go_on o (g, initial_state o) (Proxy.listen from_str o.listen builder)

  unfoldable pub start_up : Options → Main Addr Service
  unfolding gateway_of with_gateway
  start_up o = with_gateway (gateway_of compile o) o

  -- Up to the run of the server.
  unfoldable pub main : List String → Main Addr Service
  unfolding parse_args defaults start_up
  main args = elim (parse_args nothing args defaults) [
    | read o ↦ start_up o
    | Arguments.panics ↦ panics
    | Arguments.exits n ↦ exits n
  ]
