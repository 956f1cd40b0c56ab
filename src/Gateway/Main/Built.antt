-- ===== src/Gateway/Main/Built.antt =====
-- The proxy that `main` of crates/pgferry/examples/gateway.rs runs.
use pgferry.Prelude.{
  ℕ, ◌≡◌, refl, ◌∙◌, ap, String, Option, none, some, List, [], ◌∷◌, Bool, true, false, ◌||◌, str_eq,
  if◌then◌else◌, is_some,
}
use pgferry.Config.{EndpointConfig}
use pgferry.Pool.{PoolMode, default_config}
use pgferry.Proxy
use pgferry.Proxy.{
  Proxy, Parsed, ProxyBuilder, service, ok, named, default_route, builder, pool_config, register,
  build, installed, configured,
}
use pgferry.Proxy.Build.{named_all, with_route, listening, with_endpoints-behind}
use pgferry.Gateway.{Gateway, GatewayState}
use pgferry.Gateway.Options.{Options}
use pgferry.Gateway.Main.{
  gateway_of, initial_state, default_upstream, runs, with_gateway, with_upstreams, with_pool,
  finish, go_on, start_up,
}

-- The endpoints of the command line, or the one of `--upstream` or of its default.
abbrev pub endpoints_of : Option String → List (String × String) → List EndpointConfig
endpoints_of upstream [] = named "default" (default_upstream upstream) ∷ []
endpoints_of upstream ((id, connstring) ∷ more) = named_all ((id, connstring) ∷ more)

-- A single endpoint named `default` would be replaced by the next one.
abbrev pub FirstNamed : List (String × String) → Type 0
FirstNamed [] = Unit {0}
FirstNamed ((id, connstring) ∷ more) = str_eq id "default" ≡ false

abbrev pooled_by : Bool → PoolMode
pooled_by uses_split = if uses_split then PoolMode.transaction else PoolMode.session

module _ {Addr Service : Type 0} (s : Service) (addr : Addr) where
  with_upstreams-routes :
      (upstream : Option String) (es : List (String × String))
      → FirstNamed es
      → with_upstreams upstream es (listening {Service = Service} addr)
        ≡ with_route (endpoints_of upstream es) (listening addr)
  unfolding with_upstreams Proxy.upstream builder Proxy.endpoint
  with_upstreams-routes upstream [] h = refl
  with_upstreams-routes upstream ((id, connstring) ∷ more) h =
      with_endpoints-behind more (named id connstring) [] (listening addr) h

  abbrev proxy_of : Bool → List EndpointConfig → Proxy Addr Service
  proxy_of uses_split es = record {
    config =
        configured
          (record (with_route {Service = Service} es (listening addr)) {
            pool_config =
                if uses_split
                then some (record default_config { mode = PoolMode.transaction })
                else none;
          })
          addr (default_route es);
    interceptor = some (service s);
  }

  build-routes_all :
      (uses_split : Bool) (es : List EndpointConfig)
      → finish (build (register s (with_pool uses_split (with_route es (listening addr)))))
        ≡ runs (proxy_of uses_split es)
  unfolding build register with_pool pool_config builder configured installed
  build-routes_all true es = refl
  build-routes_all false es = refl

  pool_mode :
      (uses_split : Bool) (es : List EndpointConfig)
      → (proxy_of uses_split es).config.pool.mode ≡ pooled_by uses_split
  unfolding configured
  pool_mode true es = refl
  pool_mode false es = refl

module _ {Addr Regex : Type 0} (compile : List ℕ → Option Regex)
    (from_str : String → Option Addr) where
  listen_parses :
      (addr : Addr) (given : String)
      → from_str given ≡ some addr
      → Proxy.listen {Service = Gateway Regex × GatewayState} from_str given builder
        ≡ ok (listening addr)
  unfolding Proxy.listen builder
  listen_parses addr given e = rw (Proxy.listen, e) refl

  -- Options whose patterns all compile and whose address is one, where the first endpoint is not named
  -- `default`: the proxy that runs listens at the address, has a route of exactly the given endpoints
  -- in their order, or of the one upstream when there are none, and installs the gateway. It pools by
  -- transaction just when there is a read/write split or a pattern for the shards, else by session.
  pub start_up-runs :
      (o : Options) (g : Gateway Regex) (addr : Addr)
      → gateway_of compile o ≡ some g
      → from_str o.listen ≡ some addr
      → FirstNamed o.endpoints
      → (proxy : Proxy Addr (Gateway Regex × GatewayState)) × (start_up compile from_str o
          ≡ runs proxy)
        × (proxy.config.listen_addr ≡ addr)
        × (proxy.config.route.endpoints ≡ endpoints_of o.upstream o.endpoints)
        × (proxy.config.pool.mode ≡ (
            if is_some o.rw_split_primary || is_some o.shard_all
            then PoolMode.transaction
            else PoolMode.session))
        × (proxy.interceptor ≡ some (service (g, initial_state o)))
  unfolding start_up go_on configured
  start_up-runs o g addr compiled parsed h =
      let s : Gateway Regex × GatewayState = (g, initial_state o) in
      let uses_split = is_some o.rw_split_primary || is_some o.shard_all in
      let es = endpoints_of o.upstream o.endpoints in
      (
        proxy_of s addr uses_split es,
        ap (λ r. with_gateway compile from_str r o) compiled
            ∙ ap (go_on o s) (listen_parses addr o.listen parsed)
            ∙ ap (λ b. finish (build (register s (with_pool uses_split b))))
                (with_upstreams-routes s addr o.upstream o.endpoints h)
            ∙ build-routes_all s addr uses_split es,
        refl,
        refl,
        pool_mode s addr uses_split es,
        refl,
      )
