-- ===== src/Upstream.antt =====
-- Connecting to a server: `make_factory_for` and `build_upstream_connector` of
-- crates/pgferry/src/session.rs, and `connect_parts` of crates/pgferry/src/upstream.rs. pgwire's
-- client, rustls's certificate store, the crate `rustls_pemfile` and the file system are given.
pub mod Secured
use pgferry.Prelude.{ℕ, String, Option, none, some, List, [], ◌∷◌, Bool, true, false, if◌then◌else◌}
use pgferry.Prelude.Text.{utf8}
use pgferry.Config.{EndpointConfig, RouteConfig, UpstreamTlsConfig}

-- pgwire's client: its configuration, from a connection string; the setters; and `connect`, without
-- TLS where it is given no connector. rustls: certificates, and whether a store takes one.
pub record Client (Settings Cert Connector Connection : Type 0) : Type 0 where
  pub parse : String → Option Settings
  pub user : String → Settings → Settings
  pub dbname : String → Settings → Settings
  pub password : String → Settings → Settings
  pub connect : Settings → Option Connector → Option Connection
  pub read_file : String → Option (List ℕ)
  pub certs : List ℕ → Option (List Cert)
  pub takes : Cert → Bool

-- How a connector checks the server's certificate: `NoVerify`, or against the roots.
pub data Verifier (Cert : Type 0) : Type 0 where
  no_verify : Verifier Cert
  against : List Cert → Verifier Cert

pub record TlsConnector (Cert : Type 0) : Type 0 where
  pub verifier : Verifier Cert
  pub alpn_protocols : List (List ℕ)

abbrev pub connector : {Cert : Type 0} → Verifier Cert → TlsConnector Cert
connector v = record { verifier = v; alpn_protocols = utf8 "postgresql" ∷ [] }

-- `NoVerify::verify_server_cert` asserts whatever it is shown; a store is asked.
unfoldable pub verify_server_cert :
    {Cert : Type 0} → (List Cert → Cert → Bool) → Verifier Cert → Cert → Bool
verify_server_cert is_signed no_verify cert = true
verify_server_cert is_signed (against roots) cert = is_signed roots cert

abbrev pub against_roots : {Cert : Type 0} → Option (List Cert) → Option (TlsConnector Cert)
against_roots none = none
against_roots (some roots) = some (connector (against roots))

abbrev pub own_or_else : {A : Type 0} → Option A → Option A → Option A
own_or_else none b = b
own_or_else (some a) b = some a

abbrev pub own_or : {A : Type 0} → Option A → A → A
own_or none a = a
own_or (some b) a = b

abbrev pub add_root : {Cert : Type 0} → Bool → Cert → Option (List Cert) → Option (List Cert)
add_root true c (some roots) = some (c ∷ roots)
add_root true c none = none
add_root false c roots = none

module _ {Settings Cert Connection : Type 0}
    (client : Client Settings Cert (TlsConnector Cert) Connection) where
  -- The loop over the certificates; `none` at the first that the store does not take.
  unfoldable pub add_roots : List Cert → Option (List Cert)
  add_roots [] = some []
  add_roots (c ∷ cs) = add_root (client.takes c) c (add_roots cs)

  abbrev pub certs_in : Option (List ℕ) → Option (List Cert)
  certs_in none = none
  certs_in (some bytes) = client.certs bytes

  abbrev pub roots_from : Option (List Cert) → Option (List Cert)
  unfolding add_roots
  roots_from none = none
  roots_from (some cs) = add_roots cs

  -- The certificates of a CA file, if it can be opened, is read as certificates and all are taken.
  unfoldable pub load_roots : String → Option (List Cert)
  unfolding roots_from
  load_roots path = roots_from (certs_in (client.read_file path))

  abbrev pub with_ca : Option String → Option (TlsConnector Cert)
  unfolding load_roots
  with_ca none = none
  with_ca (some path) = against_roots (load_roots path)

  unfoldable pub build_upstream_connector : UpstreamTlsConfig → Option (TlsConnector Cert)
  unfolding with_ca
  build_upstream_connector tls = if tls.insecure then some (connector no_verify) else with_ca tls.ca

  abbrev pub optionally : (String → Settings → Settings) → Option String → Settings → Settings
  optionally set none s = s
  optionally set (some v) s = set v s

  -- A parse error and a refused connection are both the error of the attempt.
  unfoldable pub connect_parts :
      String
      → String
      → Option String
      → Option String
      → Option (TlsConnector Cert)
      → Option Connection
  connect_parts connstring user database password tls = elim (client.parse connstring) [
    | none ↦ none
    | some s ↦
        client.connect
          (optionally client.password password
            (optionally client.dbname database (client.user user s)))
          tls
  ]

  -- What the factory of an endpoint's pool does when it is called, for a client's user and database.
  unfoldable pub make_factory_for :
      EndpointConfig → RouteConfig → String → Option String → Option Connection
  unfolding connect_parts build_upstream_connector
  make_factory_for e route user database =
      connect_parts e.upstream user database (own_or_else e.password route.password)
        (build_upstream_connector (own_or e.tls route.tls))
