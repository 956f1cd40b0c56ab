-- ===== src/Proxy/Serve.antt =====
-- `build_tls_acceptor` and `Proxy::serve` of crates/pgferry/src/proxy.rs: what is bound, loaded and
-- spawned. The file system, the network, rustls and the crate `rustls_pemfile` are given.
pub mod Spawned
use pgferry.Prelude.{ℕ, String, Option, none, some, List, [], ◌∷◌, ◌++◌, Bool, if◌then◌else◌}
use pgferry.Proxy.{ProxyConfig, ServerTlsConfig}

pub data IoError : Type 0 where
  not_opened : String → IoError
  bad_certs : String → IoError
  bad_pkcs8_key bad_rsa_key no_private_key bad_tls_config : IoError
  not_bound no_local_addr : IoError

pub data Result (A : Type 0) : Type 0 where
  ok : A → Result A
  err : IoError → Result A

pub record Pem (Cert Key : Type 0) : Type 0 where
  pub read_file : String → Option (List ℕ)
  pub certs : List ℕ → Option (List Cert)
  pub pkcs8_private_keys : List ℕ → Option (List Key)
  pub rsa_private_keys : List ℕ → Option (List Key)
  pub with_single_cert : List Cert → Key → Bool

pub record TlsAcceptor (Cert Key : Type 0) : Type 0 where
  pub chain : List Cert
  pub key : Key

-- The n-th bind of a run, from 0.
pub record Network (Addr Listener : Type 0) : Type 0 where
  pub bind : ℕ → Addr → Option Listener
  pub local_addr : Listener → Option Addr

abbrev pub last : {A : Type 0} → List A → Option A
last [] = none
last (a ∷ []) = some a
last (a ∷ b ∷ rest) = last (b ∷ rest)

module _ {Cert Key : Type 0} (pem : Pem Cert Key) where
  abbrev pub rsa_key : Option (List Key) → Result Key
  rsa_key none = err bad_rsa_key
  rsa_key (some keys) = elim (last keys) [ none ↦ err no_private_key | some k ↦ ok k ]

  abbrev pub key_of : List ℕ → Option (List Key) → Result Key
  key_of bytes none = err bad_pkcs8_key
  key_of bytes (some (k ∷ ks)) = ok k
  key_of bytes (some []) = rsa_key (pem.rsa_private_keys bytes)

  -- The first PKCS#8 key of the file, else its last RSA key.
  unfoldable pub load_key : String → Result Key
  load_key path = elim (pem.read_file path) [
    | none ↦ err (not_opened path)
    | some bytes ↦ key_of bytes (pem.pkcs8_private_keys bytes)
  ]

  abbrev pub accepting : List Cert → Result Key → Result (TlsAcceptor Cert Key)
  accepting chain (err e) = err e
  accepting chain (ok k) =
      if pem.with_single_cert chain k
      then ok (record { chain = chain; key = k })
      else err bad_tls_config

  unfoldable pub build_tls_acceptor : ServerTlsConfig → Result (TlsAcceptor Cert Key)
  unfolding load_key
  build_tls_acceptor tls = elim (pem.read_file tls.cert) [
    | none ↦ err (not_opened tls.cert)
    | some bytes ↦ elim (pem.certs bytes) [
      | none ↦ err (bad_certs tls.cert)
      | some chain ↦ accepting chain (load_key tls.key)
    ]
  ]

  unfoldable pub tls_acceptor : Option ServerTlsConfig → Result (Option (TlsAcceptor Cert Key))
  unfolding build_tls_acceptor
  tls_acceptor none = ok none
  tls_acceptor (some tls) = elim (build_tls_acceptor tls) [ err e ↦ err e | ok a ↦ ok (some a) ]

-- The tasks of a proxy. The watcher awaits the accept loop and aborts the others.
pub data Task : Type 0 where
  sweeper metrics_server accept_loop watcher : Task

pub record ProxyServer (Addr : Type 0) : Type 0 where
  pub local_addr : Addr
  pub metrics_addr : Option Addr

abbrev pub and_then : {A B : Type 0} → Option A → (A → Option B) → Option B
and_then none f = none
and_then (some a) f = f a

module _ {Addr Listener Cert Key : Type 0} (net : Network Addr Listener) (pem : Pem Cert Key) where
  abbrev pub metrics_task : Option Listener → List Task
  metrics_task none = []
  metrics_task (some l) = metrics_server ∷ []

  abbrev pub serving : Addr → Option Listener → Result (ProxyServer Addr) × List Task
  serving local metrics = (
    ok (record { local_addr = local; metrics_addr = and_then metrics net.local_addr }),
    sweeper ∷ (metrics_task metrics ++ accept_loop ∷ watcher ∷ []),
  )

  -- The sweeper is spawned before the metrics listener is bound.
  unfoldable pub spawn_all : Addr → Option Addr → Result (ProxyServer Addr) × List Task
  spawn_all local none = serving local none
  spawn_all local (some addr) = elim (net.bind 1 addr) [
    | none ↦ (err not_bound, sweeper ∷ [])
    | some l ↦ serving local (some l)
  ]

  abbrev pub with_acceptor :
      Addr
      → Option Addr
      → Result (Option (TlsAcceptor Cert Key))
      → Result (ProxyServer Addr) × List Task
  unfolding spawn_all
  with_acceptor local metrics (err e) = (err e, [])
  with_acceptor local metrics (ok a) = spawn_all local metrics

  -- What `serve` returns, and the tasks that it leaves running.
  unfoldable pub serve : ProxyConfig Addr → Result (ProxyServer Addr) × List Task
  unfolding tls_acceptor with_acceptor
  serve config = elim (net.bind 0 config.listen_addr) [
    | none ↦ (err not_bound, [])
    | some listener ↦ elim (net.local_addr listener) [
      | none ↦ (err no_local_addr, [])
      | some local ↦ with_acceptor local config.metrics_addr (tls_acceptor pem config.tls_server)
    ]
  ]
