-- ===== src/Proxy/Serve/Spawned.antt =====
-- What `Proxy::serve` of crates/pgferry/src/proxy.rs leaves running.
use pgferry.Prelude.{◌≡◌, refl, ◌⊎◌, inl, inr, Option, none, some, List, [], ◌∷◌, ◌++◌}
use pgferry.Proxy.{ProxyConfig}
use pgferry.Proxy.Serve.{
  IoError, Result, ok, err, Pem, TlsAcceptor, Network, Task, sweeper, metrics_server, accept_loop,
  watcher, ProxyServer, tls_acceptor, serving, spawn_all, with_acceptor, serve,
}

abbrev pub metrics_tasks : {Addr : Type 0} → Option Addr → List Task
metrics_tasks none = []
metrics_tasks (some addr) = metrics_server ∷ []

-- What is left behind for each result.
abbrev pub Leaves :
    {Addr Listener : Type 0}
    → Network Addr Listener
    → Option Addr
    → Result (ProxyServer Addr)
    → List Task
    → Type 0
Leaves net metrics (ok server) tasks =
    tasks ≡ sweeper ∷ (metrics_tasks metrics ++ accept_loop ∷ watcher ∷ [])
Leaves net none (err e) tasks = tasks ≡ []
Leaves net (some addr) (err e) tasks =
    (tasks ≡ []) ⊎ ((net.bind 1 addr ≡ none) × (tasks ≡ sweeper ∷ []))

module _ {Addr Listener Cert Key : Type 0} (net : Network Addr Listener) (pem : Pem Cert Key) where
  nothing_left : (metrics : Option Addr) (e : IoError) → Leaves net metrics (err e) []
  nothing_left none e = refl
  nothing_left (some addr) e = inl refl

  bound-Leaves :
      (local addr : Addr) (o : Option Listener)
      → net.bind 1 addr ≡ o
      → let (r, tasks) = elim o as (λ _. Result (ProxyServer Addr) × List Task) [
        | none ↦ (err IoError.not_bound, sweeper ∷ [])
        | some l ↦ serving net pem local (some l)
      ] in
        Leaves net (some addr) r tasks
  bound-Leaves local addr none e = inr (e, refl)
  bound-Leaves local addr (some l) e = refl

  acceptor-Leaves :
      (local : Addr) (metrics : Option Addr) (a : Result (Option (TlsAcceptor Cert Key)))
      → let (r, tasks) = with_acceptor net pem local metrics a in Leaves net metrics r tasks
  unfolding with_acceptor spawn_all
  acceptor-Leaves local metrics (err e) = nothing_left metrics e
  acceptor-Leaves local none (ok a) = refl
  acceptor-Leaves local (some addr) (ok a) = bound-Leaves local addr (net.bind 1 addr) refl

  -- A proxy that serves has spawned its sweeper, the metrics server when it has an address for it, the
  -- accept loop and the watcher that ends them. A `serve` that fails has spawned nothing, but for one
  -- case: when the address for metrics cannot be bound, the sweeper runs on with nothing to stop it.
  pub serve-Leaves :
      (config : ProxyConfig Addr)
      → let (r, tasks) = serve net pem config in Leaves net config.metrics_addr r tasks
  unfolding serve
  serve-Leaves config = listening (net.bind 0 config.listen_addr)
    where
      local_of :
          (o : Option Addr)
          → let (r, tasks) = elim o as (λ _. Result (ProxyServer Addr) × List Task) [
            | none ↦ (err IoError.no_local_addr, [])
            | some local ↦
                with_acceptor net pem local config.metrics_addr (tls_acceptor pem config.tls_server)
          ] in
            Leaves net config.metrics_addr r tasks
      local_of none = nothing_left config.metrics_addr IoError.no_local_addr
      local_of (some local) =
          acceptor-Leaves local config.metrics_addr (tls_acceptor pem config.tls_server)

      listening :
          (o : Option Listener)
          → let (r, tasks) = elim o as (λ _. Result (ProxyServer Addr) × List Task) [
            | none ↦ (err IoError.not_bound, [])
            | some listener ↦ elim (net.local_addr listener) [
              | none ↦ (err IoError.no_local_addr, [])
              | some local ↦
                  with_acceptor net pem local config.metrics_addr
                    (tls_acceptor pem config.tls_server)
            ]
          ] in
            Leaves net config.metrics_addr r tasks
      listening none = nothing_left config.metrics_addr IoError.not_bound
      listening (some l) = local_of (net.local_addr l)
