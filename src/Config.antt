-- ===== src/Config.antt =====
-- Routes and their endpoints (crates/pgferry/src/config.rs). A path is a text.
use pgferry.Prelude.{String, Option, none, some, List, [], ◌∷◌, Bool, false, if◌then◌else◌, str_eq}

pub record UpstreamTlsConfig : Type 0 where
  pub ca : Option String
  pub insecure : Bool

-- `UpstreamTlsConfig::default()`.
abbrev pub no_tls : UpstreamTlsConfig
no_tls = record { ca = none; insecure = false }

pub record EndpointConfig : Type 0 where
  pub id : String
  pub upstream : String
  pub password : Option String
  pub tls : Option UpstreamTlsConfig

pub record RouteConfig : Type 0 where
  pub name : String
  pub endpoints : List EndpointConfig
  pub password : Option String
  pub tls : UpstreamTlsConfig

unfoldable pub find_endpoint : String → List EndpointConfig → Option EndpointConfig
find_endpoint id [] = none
find_endpoint id (e ∷ es) = if str_eq e.id id then some e else find_endpoint id es

unfoldable pub endpoint : RouteConfig → String → Option EndpointConfig
unfolding find_endpoint
endpoint route id = find_endpoint id route.endpoints
