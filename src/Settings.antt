-- ===== src/Settings.antt =====
-- From the command line and the file `pgferry.toml` to a proxy (crates/pgferry-bin/src/main.rs). The
-- file is given as it is parsed, and so is the environment.
pub mod Chosen
use pgferry.Prelude.{
  ℕ, String, Option, none, some, List, [], ◌∷◌, map, Bool, true, false, if◌then◌else◌, str_eq,
}
use pgferry.Config.{EndpointConfig, RouteConfig}
use pgferry.Pool.{PoolConfig, PoolMode, default_config, seconds}
use pgferry.Proxy.{
  ConfigError, Parsed, ok, err, Proxy, ProxyBuilder, ServerTlsConfig, builder, listen, route,
  pool_config, max_client_conn, admin_database, metrics_addr, tls_server, shutdown_drain, build,
}

pub record Args : Type 0 where
  pub listen : Option String
  pub upstream : Option String
  pub password : Option String

pub record FileEndpoint : Type 0 where
  pub id : String
  pub upstream : String
  pub password : Option String

pub record FileRoute : Type 0 where
  pub name : Option String
  pub upstream : Option String
  pub endpoints : List FileEndpoint
  pub password : Option String
  pub password_env : Option String
  pub tls_ca : Option String
  pub tls_insecure : Option Bool

pub record FilePool : Type 0 where
  pub mode : Option String
  pub max_size : Option ℕ
  pub idle_timeout_secs : Option ℕ
  pub max_lifetime_secs : Option ℕ
  pub stale_after_secs : Option ℕ
  pub sweep_interval_secs : Option ℕ

pub record FileConfig : Type 0 where
  pub listen : String
  pub max_client_conn : Option ℕ
  pub admin_database : Option String
  pub metrics_addr : Option String
  pub shutdown_drain_secs : Option ℕ
  pub server_tls : Option ServerTlsConfig
  pub route : FileRoute
  pub pool : FilePool

abbrev pub or_else : {A : Type 0} → Option A → Option A → Option A
or_else none o = o
or_else (some a) o = some a

abbrev pub or_value : {A : Type 0} → Option A → A → A
or_value none d = d
or_value (some a) d = a

abbrev pub of_file : {A B : Type 0} → Option A → (A → Option B) → Option B
of_file none f = none
of_file (some a) f = f a

abbrev or_seconds : Option ℕ → ℕ → ℕ
or_seconds none d = d
or_seconds (some n) d = seconds n

abbrev pub empty_pool : FilePool
empty_pool = record {
  mode = none;
  max_size = none;
  idle_timeout_secs = none;
  max_lifetime_secs = none;
  stale_after_secs = none;
  sweep_interval_secs = none;
}

-- An unknown mode is the session mode.
unfoldable pub mode_of : Option String → PoolMode
mode_of none = default_config.mode
mode_of (some v) = if str_eq v "transaction" then PoolMode.transaction else PoolMode.session

unfoldable pub into_config : FilePool → PoolConfig
unfolding mode_of
into_config f = record {
  mode = mode_of f.mode;
  max_size = or_value f.max_size default_config.max_size;
  idle_timeout = or_seconds f.idle_timeout_secs default_config.idle_timeout;
  max_lifetime = or_seconds f.max_lifetime_secs default_config.max_lifetime;
  stale_after = or_seconds f.stale_after_secs default_config.stale_after;
  sweep_interval = or_seconds f.sweep_interval_secs default_config.sweep_interval;
}

-- `var` reads the environment.
unfoldable pub resolve_password :
    (String → Option String) → FileRoute → Option String → Option String
resolve_password var route cli_password =
    or_else cli_password (or_else route.password (of_file route.password_env var))

abbrev pub configured_endpoint : FileEndpoint → EndpointConfig
configured_endpoint e = record {
  id = e.id;
  upstream = e.upstream;
  password = e.password;
  tls = none;
}

abbrev pub or_default : String → List EndpointConfig → List EndpointConfig
or_default upstream [] =
    record { id = "default"; upstream = upstream; password = none; tls = none } ∷ []
or_default upstream (e ∷ es) = e ∷ es

abbrev file_endpoints : Option FileRoute → List EndpointConfig
file_endpoints none = []
file_endpoints (some r) = map configured_endpoint r.endpoints

unfoldable pub route_of : (String → Option String) → Args → Option FileRoute → RouteConfig
unfolding resolve_password
route_of var args file_route =
    let upstream = or_value (or_else args.upstream (of_file file_route λ r. r.upstream)) "" in
    record {
      name = or_value (of_file file_route λ r. r.name) "default";
      endpoints = or_default upstream (file_endpoints file_route);
      password = of_file file_route λ r. resolve_password var r args.password;
      tls = record {
        ca = of_file file_route λ r. r.tls_ca;
        insecure = or_value (of_file file_route λ r. r.tls_insecure) false;
      };
    }

abbrev pub route_in : Option FileConfig → Option FileRoute
route_in none = none
route_in (some f) = some f.route

abbrev pub pool_in : Option FileConfig → FilePool
pool_in none = empty_pool
pool_in (some f) = f.pool

abbrev pub listen_in : Option FileConfig → Option String
listen_in none = none
listen_in (some f) = some f.listen

-- Why the program ends before it serves.
pub data Refused (Addr : Type 0) : Type 0 where
  no_listen_address : Refused Addr
  bad_config : ConfigError Addr → Refused Addr

pub data Configured (Addr Service : Type 0) : Type 0 where
  proxy : Proxy Addr Service → Configured Addr Service
  refused : Refused Addr → Configured Addr Service

module _ {Addr Service : Type 0} where
  abbrev pub when_some :
      {A : Type 0}
      → Option A
      → (A → ProxyBuilder Addr Service → ProxyBuilder Addr Service)
      → ProxyBuilder Addr Service
      → ProxyBuilder Addr Service
  when_some none set b = b
  when_some (some a) set b = set a b

  unfoldable pub and_metrics :
      (String → Option Addr)
      → Option String
      → ProxyBuilder Addr Service
      → Parsed (ProxyBuilder Addr Service) Addr
  unfolding metrics_addr
  and_metrics from_str none b = ok b
  and_metrics from_str (some addr) b = metrics_addr from_str addr b

  abbrev pub finish : Parsed (Proxy Addr Service) Addr → Configured Addr Service
  finish (ok p) = proxy p
  finish (err e) = refused (bad_config e)

  -- The rest of the builder's chain behind `metrics_addr`.
  unfoldable pub build_rest :
      Option FileConfig → Parsed (ProxyBuilder Addr Service) Addr → Configured Addr Service
  unfolding tls_server shutdown_drain build
  build_rest file (err e) = refused (bad_config e)
  build_rest file (ok b) = finish (
      build (
        when_some (of_file file λ f. f.shutdown_drain_secs) (λ n. shutdown_drain (seconds n))
          (when_some (of_file file λ f. f.server_tls) (λ tls. tls_server tls.cert tls.key) b)))

  unfoldable pub build_listening :
      (String → Option String)
      → (String → Option Addr)
      → Args
      → Option FileConfig
      → Parsed (ProxyBuilder Addr Service) Addr
      → Configured Addr Service
  unfolding build_rest route_of into_config route pool_config max_client_conn admin_database
  build_listening var from_str args file (err e) = refused (bad_config e)
  build_listening var from_str args file (ok b) =
      let r = route_of var args (route_in file) in
      let b' =
        max_client_conn (or_value (of_file file λ f. f.max_client_conn) 128)
          (pool_config (into_config (pool_in file)) (route r b)) in
      build_rest file (
        and_metrics from_str (of_file file λ f. f.metrics_addr)
          (when_some (of_file file λ f. f.admin_database) admin_database b'))

  -- `main` up to the serving.
  unfoldable pub configure :
      (String → Option String)
      → (String → Option Addr)
      → Args
      → Option FileConfig
      → Configured Addr Service
  unfolding listen build_listening builder
  configure var from_str args file = elim (or_else args.listen (listen_in file)) [
    | none ↦ refused no_listen_address
    | some addr ↦ build_listening var from_str args file (listen from_str addr builder)
  ]
