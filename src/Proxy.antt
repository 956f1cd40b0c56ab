-- ===== src/Proxy.antt =====
-- The builder of crates/pgferry/src/proxy.rs: `ProxyBuilder`. `Addr` is `SocketAddr`, and its parser
-- is given; `Service` is what the program registers as its interceptor.
pub mod Build
pub mod Accept
pub mod Slots
pub mod Shutdown
pub mod Serve
use pgferry.Prelude.{
  ℕ, String, Option, none, some, List, [], ◌∷◌, ◌++◌, Bool, true, false, if◌then◌else◌, str_eq,
  length, ltb, ◌==◌,
}
use pgferry.Config.{EndpointConfig, RouteConfig, no_tls}
use pgferry.Pool.{PoolConfig, default_config, seconds}
use pgferry.Routing.{EndpointGroup, from_endpoints}

pub data ConfigError (Addr : Type 0) : Type 0 where
  listen_addr : String → ConfigError Addr
  missing : String → ConfigError Addr

pub data Parsed (A : Type 0) (Addr : Type 0) : Type 0 where
  ok : A → Parsed A Addr
  err : ConfigError Addr → Parsed A Addr

-- Paths of the certificates and of the key.
pub record ServerTlsConfig : Type 0 where
  pub cert : String
  pub key : String

pub record ProxyConfig (Addr : Type 0) : Type 0 where
  pub listen_addr : Addr
  pub route : RouteConfig
  pub pool : PoolConfig
  pub max_client_conn : ℕ
  pub admin_database : Option String
  pub metrics_addr : Option Addr
  pub tls_server : Option ServerTlsConfig
  pub shutdown_drain : ℕ

-- A registered service, or the built-in `FailoverRouter` with its group.
pub data Installed (Service : Type 0) : Type 0 where
  service : Service → Installed Service
  failover : EndpointGroup → Installed Service

pub record Proxy (Addr Service : Type 0) : Type 0 where
  pub config : ProxyConfig Addr
  pub interceptor : Option (Installed Service)

pub record ProxyBuilder (Addr Service : Type 0) : Type 0 where
  pub listen_addr : Option Addr
  pub route : Option RouteConfig
  pub pool_config : Option PoolConfig
  pub max_client_conn : ℕ
  pub interceptor : Option Service
  pub admin_database : Option String
  pub metrics_addr : Option Addr
  pub tls_server : Option ServerTlsConfig
  pub shutdown_drain : Option ℕ

abbrev pub named : String → String → EndpointConfig
named id upstream = record { id = id; upstream = upstream; password = none; tls = none }

abbrev pub default_route : List EndpointConfig → RouteConfig
default_route es = record { name = "default"; endpoints = es; password = none; tls = no_tls }

-- Whether the endpoints are a single one with the name `default`.
abbrev pub only_default : List EndpointConfig → Bool
only_default [] = false
only_default (e ∷ []) = str_eq e.id "default"
only_default (e ∷ _ ∷ _) = false

abbrev pub add_endpoint : EndpointConfig → RouteConfig → RouteConfig
add_endpoint e route = record route {
  endpoints = if only_default route.endpoints then e ∷ [] else route.endpoints ++ e ∷ [];
}

abbrev unwrap_or : {A : Type 0} → A → Option A → A
unwrap_or default none = default
unwrap_or default (some a) = a

abbrev mapped : {A B : Type 0} → (A → B) → Option A → Option B
mapped f none = none
mapped f (some a) = some (f a)

-- A service, or the failover router for a route of several endpoints.
unfoldable pub installed :
    {Service : Type 0} → Option Service → Option RouteConfig → Option (Installed Service)
unfolding from_endpoints
installed (some s) r = some (service s)
installed none none = none
installed none (some r) =
    if ltb 1 (length r.endpoints) then some (failover (from_endpoints r.endpoints)) else none

module _ {Addr Service : Type 0} where
  unfoldable pub builder : ProxyBuilder Addr Service
  builder = record {
    listen_addr = none;
    route = none;
    pool_config = none;
    max_client_conn = 0;
    interceptor = none;
    admin_database = none;
    metrics_addr = none;
    tls_server = none;
    shutdown_drain = none;
  }

  unfoldable pub listen :
      (String → Option Addr)
      → String
      → ProxyBuilder Addr Service
      → Parsed (ProxyBuilder Addr Service) Addr
  listen from_str addr b = elim (from_str addr) [
    | some a ↦ ok (record b { listen_addr = some a })
    | none ↦ err (ConfigError.listen_addr addr)
  ]

  unfoldable pub metrics_addr :
      (String → Option Addr)
      → String
      → ProxyBuilder Addr Service
      → Parsed (ProxyBuilder Addr Service) Addr
  metrics_addr from_str addr b = elim (from_str addr) [
    | some a ↦ ok (record b { metrics_addr = some a })
    | none ↦ err (ConfigError.listen_addr addr)
  ]

  unfoldable pub register : Service → ProxyBuilder Addr Service → ProxyBuilder Addr Service
  register s b = record b { interceptor = some s }

  unfoldable pub route : RouteConfig → ProxyBuilder Addr Service → ProxyBuilder Addr Service
  route r b = record b { route = some r }

  unfoldable pub upstream : String → ProxyBuilder Addr Service → ProxyBuilder Addr Service
  upstream connstring b = record b {
    route = some (default_route (named "default" connstring ∷ []));
  }

  unfoldable pub endpoint : String → String → ProxyBuilder Addr Service → ProxyBuilder Addr Service
  endpoint id connstring b = record b {
    route = elim b.route [
      | some r ↦ some (add_endpoint (named id connstring) r)
      | none ↦ some (default_route (named id connstring ∷ []))
    ];
  }

  unfoldable pub password : String → ProxyBuilder Addr Service → ProxyBuilder Addr Service
  password secret b = record b {
    route =
        mapped {A = RouteConfig} {B = RouteConfig} (λ r. record r { password = some secret })
          b.route;
  }

  -- `var` reads the environment.
  unfoldable pub password_env :
      (String → Option String) → String → ProxyBuilder Addr Service → ProxyBuilder Addr Service
  unfolding password
  password_env var name b = elim (var name) [ some secret ↦ password secret b | none ↦ b ]

  unfoldable pub pool_config : PoolConfig → ProxyBuilder Addr Service → ProxyBuilder Addr Service
  pool_config config b = record b { pool_config = some config }

  unfoldable pub max_client_conn : ℕ → ProxyBuilder Addr Service → ProxyBuilder Addr Service
  max_client_conn max b = record b { max_client_conn = max }

  unfoldable pub admin_database : String → ProxyBuilder Addr Service → ProxyBuilder Addr Service
  admin_database name b = record b { admin_database = some name }

  unfoldable pub tls_server :
      String → String → ProxyBuilder Addr Service → ProxyBuilder Addr Service
  tls_server cert key b = record b { tls_server = some (record { cert = cert; key = key }) }

  unfoldable pub shutdown_drain : ℕ → ProxyBuilder Addr Service → ProxyBuilder Addr Service
  shutdown_drain drain b = record b { shutdown_drain = some drain }

  unfoldable pub configured : ProxyBuilder Addr Service → Addr → RouteConfig → ProxyConfig Addr
  configured b addr r = record {
    listen_addr = addr;
    route = r;
    pool = unwrap_or default_config b.pool_config;
    max_client_conn = if b.max_client_conn == 0 then 128 else b.max_client_conn;
    admin_database = b.admin_database;
    metrics_addr = b.metrics_addr;
    tls_server = b.tls_server;
    shutdown_drain = unwrap_or (seconds 30) b.shutdown_drain;
  }

  unfoldable pub build : ProxyBuilder Addr Service → Parsed (Proxy Addr Service) Addr
  unfolding installed configured
  build b = elim b.listen_addr [
    | none ↦ err (missing "listen")
    | some addr ↦ elim b.route [
      | none ↦ err (missing "upstream")
      | some r ↦
          ok
            (record { config = configured b addr r; interceptor = installed b.interceptor b.route })
    ]
  ]
