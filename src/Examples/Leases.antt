-- ===== src/Examples/Leases.antt =====
-- The theorems on connecting and on serving, applied.
use pgferry.Prelude.{
  ℕ, ◌≡◌, refl, Option, none, some, List, [], ◌∷◌, Bool, true, false, str_eq, if◌then◌else◌, ◌==◌,
}
use pgferry.Prelude.Text.{utf8}
use pgferry.Config.{UpstreamTlsConfig}
use pgferry.Pool.{default_config}
use pgferry.Proxy.{ProxyConfig}
use pgferry.Proxy.Serve.{Pem, Network, serve}
use pgferry.Proxy.Serve.Spawned.{Leaves, serve-Leaves}
use pgferry.Upstream.{
  Client, TlsConnector, against, connector, verify_server_cert, build_upstream_connector,
  load_roots, add_roots,
}
use pgferry.Upstream.Secured.{Checks, build_upstream_connector-Checks}
use pgferry.Examples.{one_route}

-- A file system with one CA file, of one certificate; a certificate is a number, and it is signed by a
-- root of the same number. A connection is what it was made with.
abbrev client : Client (List ℕ) ℕ (TlsConnector ℕ) (List ℕ × Option (TlsConnector ℕ))
client = record {
  parse = λ connstring. some [];
  user = λ name s. utf8 name;
  dbname = λ name s. s;
  password = λ secret s. s;
  connect = λ s tls. some (s, tls);
  read_file = λ path. if str_eq path "ca.pem" then some (3 ∷ []) else none;
  certs = λ bytes. some bytes;
  takes = λ c. true;
}

abbrev same_number : List ℕ → ℕ → Bool
same_number [] cert = false
same_number (r ∷ rs) cert = if r == cert then true else same_number rs cert

abbrev verified : TlsConnector ℕ
verified = connector (against (3 ∷ []))

abbrev ca_file : UpstreamTlsConfig
ca_file = record { ca = some "ca.pem"; insecure = false }

build_upstream_connector-Checks_example :
    (ca_file.insecure ≡ false → Checks client same_number ca_file verified.verifier)
    × (ca_file.insecure ≡ true
        → (cert : ℕ) → verify_server_cert same_number verified.verifier cert ≡ true)
unfolding build_upstream_connector load_roots add_roots
build_upstream_connector-Checks_example =
    build_upstream_connector-Checks client same_number ca_file verified refl

-- Addresses are numbers; the one for metrics is taken.
abbrev busy : Network ℕ ℕ
busy = record {
  bind = λ n addr. if addr == 9090 then none else some addr;
  local_addr = λ l. some l;
}

abbrev no_files : Pem ℕ ℕ
no_files = record {
  read_file = λ path. none;
  certs = λ bytes. none;
  pkcs8_private_keys = λ bytes. none;
  rsa_private_keys = λ bytes. none;
  with_single_cert = λ chain key. false;
}

abbrev with_metrics : ProxyConfig ℕ
with_metrics = record {
  listen_addr = 6432;
  route = one_route;
  pool = default_config;
  max_client_conn = 128;
  admin_database = none;
  metrics_addr = some 9090;
  tls_server = none;
  shutdown_drain = 0;
}

serve-Leaves_example :
    let (r, tasks) = serve busy no_files with_metrics in Leaves busy (some 9090) r tasks
serve-Leaves_example = serve-Leaves busy no_files with_metrics
