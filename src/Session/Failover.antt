-- ===== src/Session/Failover.antt =====
-- An attach (crates/pgferry/src/session.rs) that `FailoverRouter` (crates/pgferry/src/routing.rs)
-- routes: endpoints that refuse every connection are given up one after the other.
pub mod Reaches
use Prim.Native.Nat.{zero, suc, max}
use pgferry.Prelude.{
  ℕ, ◌+◌, ◌-◌, ◌*◌, ◌^◌, ◌≤◌, ◌<◌, ◌≡◌, ◌≢◌, refl, sym, ap, ◌∙◌, subst, ◌⊎◌, inl, inr, String,
  Option, none, some, List, [], ◌∷◌, ◌++◌, Bool, true, false, arith, is_some, length, length-append,
  lookup, insert, lookup-insert, str_eq, eq_iff, Bool-cases, if◌then◌else◌, leb,
}
use pgferry.Config.{EndpointConfig, find_endpoint, endpoint}
use pgferry.Conn.{Conn}
use pgferry.Pool.{UpstreamLease}
use pgferry.Pool.Parameters.{sync_startup_parameters}
use pgferry.Intercept.{Interceptor}
use pgferry.Routing.{
  EndpointGroup, Health, alive, dead, is_alive, is_alive_at, report_failure, report_success,
  failed_once, select_first_alive,
}
use pgferry.Routing.Failover.{AllDead, select_first_alive-first}
use pgferry.Routing.Router.{failover_router, id_or}
use pgferry.Session.{SessionHooks, Pump, Env, Checkout, leased, refused}
use pgferry.Session.Effects.{
  M, Out, ok, ◌>>=◌, gets, modify, pure, dispatch_upstream, route_hooks,
  dispatch_on_upstream_connected,
}
use pgferry.Session.Statements.{replay, replay_gucs}
use pgferry.Session.Attach.{
  Tried, attached, retry, try_attach, attach_to, ask_pool, use_answer, prepare_startup,
  prepare_gucs, prepare_statements, finish_attach, consult, attach_loop, ensure_attached, attempts,
}

pub find_endpoint-member :
    (above : List EndpointConfig) (e : EndpointConfig) (below : List EndpointConfig)
    → (e' : EndpointConfig) × (find_endpoint e.id (above ++ e ∷ below) ≡ some e') × (e'.id ≡ e.id)
unfolding find_endpoint
find_endpoint-member [] e below = (e, ground (arith, eq_iff e.id e.id), refl)
find_endpoint-member (x ∷ above) e below = elim (Bool-cases (str_eq x.id e.id)) [
  | inl same ↦ (x, rw same refl, (eq_iff x.id e.id).0 same)
  | inr other ↦ let (e', f, i) = find_endpoint-member above e below in (e', rw other f, i)
]

module _ (env : Env) (now : ℕ) (sql : Option String) (p : Pump EndpointGroup)
    (h : SessionHooks EndpointGroup) where
  -- The session in mid-attach: the group is `g`, and `c` checkouts have been asked for.
  abbrev pub mid : EndpointGroup → ℕ → Pump EndpointGroup
  mid g c = record p { hooks = some (record h { ctx = g }); checkouts = c }

  refused-retries :
      (g : EndpointGroup) (c : ℕ) (id error : String)
      → use_answer (failover_router now) env id (refused error) (mid g c)
        ≡ (ok retry, mid (report_failure now id g) c)
  unfolding use_answer consult failover_router ◌>>=◌ pure
  refused-retries g c id error = refl

  asks :
      (g : EndpointGroup) (c : ℕ) (id : String) (e' : EndpointConfig)
      → select_first_alive now env.route.endpoints g ≡ some id
      → find_endpoint id env.route.endpoints ≡ some e'
      → e'.id ≡ id
      → try_attach (failover_router now) env sql (mid g c)
        ≡ use_answer (failover_router now) env id (env.checkout c id) (mid g (c + 1))
  unfolding try_attach ◌>>=◌ attach_to ask_pool endpoint dispatch_upstream route_hooks
      failover_router
  asks g c id e' s f i = rw s (rw f (rw i refl))

  round-refused :
      (g : EndpointGroup) (c : ℕ) (id error : String) (e' : EndpointConfig)
      → select_first_alive now env.route.endpoints g ≡ some id
      → find_endpoint id env.route.endpoints ≡ some e'
      → e'.id ≡ id
      → env.checkout c id ≡ refused error
      → try_attach (failover_router now) env sql (mid g c)
        ≡ (ok retry, mid (report_failure now id g) (c + 1))
  round-refused g c id error e' s f i r =
      asks g c id e' s f i
      ∙ ap (λ a. use_answer (failover_router now) env id a (mid g (c + 1))) r
      ∙ refused-retries g (c + 1) id error

  pub loop-refused :
      (n : ℕ) (g : EndpointGroup) (c : ℕ) (id error : String) (e' : EndpointConfig)
      → select_first_alive now env.route.endpoints g ≡ some id
      → find_endpoint id env.route.endpoints ≡ some e'
      → e'.id ≡ id
      → env.checkout c id ≡ refused error
      → attach_loop (failover_router now) env (suc n) sql (mid g c)
        ≡ attach_loop (failover_router now) env n sql (mid (report_failure now id g) (c + 1))
  unfolding attach_loop ◌>>=◌
  loop-refused n g c id error e' s f i r = rw (round-refused g c id error e' s f i r) refl

  -- Served on `id`, at a session's first attach.
  serves :
      (g : EndpointGroup) (c : ℕ) (id : String) (l : UpstreamLease) (d : Conn)
      → sync_startup_parameters env.simple_query env.startup_parameters l.conn ≡ some d
      → p.registry ≡ []
      → p.guc_overrides ≡ []
      → use_answer (failover_router now) env id (leased l) (mid g c) ≡ (
        ok attached,
        record (mid (report_success id g) c) {
          lease = some (record l { conn = d });
          current_endpoint = some id;
          granted = l ∷ p.granted;
        },
      )
  unfolding use_answer prepare_startup prepare_gucs prepare_statements finish_attach ◌>>=◌ gets
      modify pure dispatch_on_upstream_connected failover_router replay_gucs replay
  serves g c id l d sync reg gucs = rw (use_answer, prepare_startup, sync) (rw reg (rw gucs refl))

  abbrev pub served : EndpointGroup → ℕ → String → UpstreamLease → Conn → Pump EndpointGroup
  served g c id l d = record (mid (report_success id g) c) {
    lease = some (record l { conn = d });
    current_endpoint = some id;
    granted = l ∷ p.granted;
  }

  pub loop-serves :
      (n : ℕ) (g : EndpointGroup) (c : ℕ) (id : String) (e' : EndpointConfig) (l : UpstreamLease)
      (d : Conn)
      → select_first_alive now env.route.endpoints g ≡ some id
      → find_endpoint id env.route.endpoints ≡ some e'
      → e'.id ≡ id
      → env.checkout c id ≡ leased l
      → sync_startup_parameters env.simple_query env.startup_parameters l.conn ≡ some d
      → p.registry ≡ []
      → p.guc_overrides ≡ []
      → attach_loop (failover_router now) env (suc n) sql (mid g c)
        ≡ (ok true, served g (c + 1) id l d)
  unfolding attach_loop ◌>>=◌ pure
  loop-serves n g c id e' l d s f i r sync reg gucs =
      rw
        (asks g c id e' s f i
          ∙ ap (λ a. use_answer (failover_router now) env id a (mid g (c + 1))) r
          ∙ serves g (c + 1) id l d sync reg gucs)
        refl
