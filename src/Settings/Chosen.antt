-- ===== src/Settings/Chosen.antt =====
-- What proxy the command line and the file of crates/pgferry-bin/src/main.rs amount to.
use pgferry.Prelude.{
  ℕ, ◌≡◌, refl, ◌∙◌, ◌<◌, map, String, Option, none, some, List, [], ◌∷◌, arith, length,
}
use pgferry.Config.{EndpointConfig, RouteConfig}
use pgferry.Proxy.{
  Proxy, ServerTlsConfig, build, installed, configured, tls_server, shutdown_drain, listen, builder,
  route, pool_config, max_client_conn, admin_database,
}
use pgferry.Pool.{PoolConfig, seconds}
use pgferry.Settings.{
  Args, FileConfig, FileRoute, Configured, proxy, configure, route_of, into_config, route_in,
  pool_in, or_else, of_file, listen_in, when_some, finish, build_rest, build_listening, and_metrics,
  or_default, or_value, configured_endpoint,
}

route_of-endpoints :
    (var : String → Option String) (args : Args) (r : Option FileRoute)
    → 0 < length (route_of var args r).endpoints
unfolding route_of
route_of-endpoints var args none = omega arith
route_of-endpoints var args (some r) = filled _ (map configured_endpoint r.endpoints)
  where
    filled : (upstream : String) (es : List EndpointConfig) → 0 < length (or_default upstream es)
    filled upstream [] = omega arith
    filled upstream (e ∷ es) = omega arith

module _ {Addr Service : Type 0} where
  -- A proxy of the route and the pool's settings, with no service of its own.
  abbrev Amounts : RouteConfig → PoolConfig → Configured Addr Service → Type 0
  Amounts r config c =
      (p : Proxy Addr Service) × (c ≡ proxy p)
      × (p.config.route ≡ r)
      × (p.config.pool ≡ config)
      × (p.interceptor ≡ installed none (some r))

  -- The chain of the builder's calls.
  abbrev chain :
      Option String
      → Option ServerTlsConfig
      → Option ℕ
      → Addr
      → RouteConfig
      → PoolConfig
      → ℕ
      → Configured Addr Service
  unfolding build tls_server shutdown_drain admin_database max_client_conn pool_config route builder
  chain database tls drain addr r config n = finish (
      build (
        when_some drain (λ n. shutdown_drain (seconds n))
          (when_some tls (λ t. tls_server t.cert t.key)
            (when_some database admin_database (
              max_client_conn n
                (pool_config config (route r (record builder { listen_addr = some addr }))))))))

  chain-Amounts :
      (database : Option String) (tls : Option ServerTlsConfig) (drain : Option ℕ) (addr : Addr)
      (r : RouteConfig) (config : PoolConfig) (n : ℕ)
      → Amounts r config (chain database tls drain addr r config n)
  unfolding chain build configured tls_server shutdown_drain admin_database max_client_conn
      pool_config route builder
  chain-Amounts none none none addr r config n = (_, refl, refl, refl, refl)
  chain-Amounts none none (some d) addr r config n = (_, refl, refl, refl, refl)
  chain-Amounts none (some t) none addr r config n = (_, refl, refl, refl, refl)
  chain-Amounts none (some t) (some d) addr r config n = (_, refl, refl, refl, refl)
  chain-Amounts (some db) none none addr r config n = (_, refl, refl, refl, refl)
  chain-Amounts (some db) none (some d) addr r config n = (_, refl, refl, refl, refl)
  chain-Amounts (some db) (some t) none addr r config n = (_, refl, refl, refl, refl)
  chain-Amounts (some db) (some t) (some d) addr r config n = (_, refl, refl, refl, refl)

  configure-chain :
      (var : String → Option String) (from_str : String → Option Addr) (args : Args)
      (file : Option FileConfig) (text : String) (addr : Addr)
      → or_else args.listen (listen_in file) ≡ some text
      → from_str text ≡ some addr
      → of_file file (λ f. f.metrics_addr) ≡ none
      → configure var from_str args file
        ≡ chain
            (of_file file λ f. f.admin_database)
            (of_file file λ f. f.server_tls)
            (of_file file λ f. f.shutdown_drain_secs)
            addr
            (route_of var args (route_in file))
            (into_config (pool_in file))
            (or_value (of_file file λ f. f.max_client_conn) 128)
  unfolding configure listen build_listening build_rest chain and_metrics
  configure-chain var from_str args file text addr l a m =
      rw (configure, l, listen, a, build_listening, m) refl

  -- With an address to listen on that parses and without a metrics address, the program always comes to
  -- serve: the proxy has the route and the pool's settings of the file and the command line, at least
  -- one endpoint, and routes by failover when there are several.
  pub configure-serves :
      (var : String → Option String) (from_str : String → Option Addr) (args : Args)
      (file : Option FileConfig) (text : String) (addr : Addr)
      → or_else args.listen (listen_in file) ≡ some text
      → from_str text ≡ some addr
      → of_file file (λ f. f.metrics_addr) ≡ none
      → let r = route_of var args (route_in file) in
        (0 < length r.endpoints)
        × ((p : Proxy Addr Service) × (configure var from_str args file ≡ proxy p)
            × (p.config.route ≡ r)
            × (p.config.pool ≡ into_config (pool_in file))
            × (p.interceptor ≡ installed none (some r)))
  configure-serves var from_str args file text addr l a m =
      let (p, is, routed, pooled, routes) =
        chain-Amounts (of_file file λ f. f.admin_database) (of_file file λ f. f.server_tls)
          (of_file file λ f. f.shutdown_drain_secs) addr (route_of var args (route_in file))
          (into_config (pool_in file)) (or_value (of_file file λ f. f.max_client_conn) 128) in
      (
        route_of-endpoints var args (route_in file),
        (p, configure-chain var from_str args file text addr l a m ∙ is, routed, pooled, routes),
      )
