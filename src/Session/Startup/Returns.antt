-- ===== src/Session/Startup/Returns.antt =====
-- The leases of a session from its first packet to its end (crates/pgferry/src/session.rs).
pub mod Attaching
use Prim.Native.Nat.{zero, suc}
use pgferry.Prelude.{
  ℕ, ◌≡◌, refl, ◌==◌, not, String, Option, none, some, List, [], Bool, true, false, arith, str_eq,
  if◌then◌else◌,
}
use pgferry.Admin.{admin_parameters, run_admin}
use pgferry.Cancel.{Key}
use pgferry.Config.{EndpointConfig, endpoint, RouteConfig}
use pgferry.Intercept.{Interceptor, RetryDecision}
use pgferry.Pool.{UpstreamLease}
use pgferry.Runtime.{SessionInfo}
use pgferry.Session.{Downstream, SessionHooks, End, Pump, Env}
use pgferry.Session.Attach.{attempts, ensure_attached}
use pgferry.Session.Custody.{Custody, weight, weight_held, weight_released}
use pgferry.Session.Effects.{
  Out, ok, skip, stop, pure, ◌>>=◌, ◌>>◌, try_send, send_or_ignore, dispatch_on_upstream_connected,
}
use pgferry.Session.Events.{Event, run, new_pump, settle_lease}
use pgferry.Session.Sound.{
  Inv, Inv-local, dispatch_upstream-local, dispatch_on_upstream_error-local,
  dispatch_on_upstream_connected-local,
}
use pgferry.Session.Sound.Attaching.{Attaches, ensure_attached-Attaches}
use pgferry.Session.Sound.Asking.{Keeps}
use pgferry.Session.Sound.Whole.{new_pump-Inv, run-Kept}
use pgferry.Session.Startup.{
  Setup, Shared, SessionParams, session_info, Served, Life, turned_away, broke_off, running, ended,
  fatal, from_startup,
}
use pgferry.Session.Startup.Baseline.{
  Asked, answered, again, gave_up, consult_baseline, ask_baseline, baseline_loop,
  baseline_params_routed, baseline_or_fatal, parameters_of_lease, attach_now, server_parameters,
}
use pgferry.Session.Startup.Login.{
  drop_lease, run_session_ready, with_parameters, end_pump, end_admin, serve_admin, refuse, log_in,
  by_version, negotiate_version, session_env, First, startup, cancel_request, another, garbage,
  closed, run_session, start_pump,
}
use pgferry.Wire.{
  Message, BackendMessage, unsupported_replication, no_user, unsupported_protocol, expected_startup,
}
use pgferry.Session.Startup.Returns.Attaching.{server_parameters-Keeps}
use pgferry.Session.Triples.{
  Triple, Triple-pure, Triple-modify, Triple-bind, Triple-if, Triple-weaken, Post,
  Triple-send_or_ignore,
}

-- A session that runs on holds what it did not give up; one that has ended holds nothing, and has
-- given each lease up that it was given, once.
abbrev pub Settled : {Ctx : Type 0} → Life → Pump Ctx → Type 0
Settled running p = Custody p
Settled turned_away p =
    (p.lease ≡ none) × ((v : ℕ → ℕ) → weight_released v p.released ≡ weight v p.granted)
Settled broke_off p =
    (p.lease ≡ none) × ((v : ℕ → ℕ) → weight_released v p.released ≡ weight v p.granted)
Settled (ended e) p =
    (p.lease ≡ none) × ((v : ℕ → ℕ) → weight_released v p.released ≡ weight v p.granted)

abbrev Empty : {Ctx : Type 0} → Pump Ctx → Type 0
Empty p = (p.lease ≡ none) × ((v : ℕ → ℕ) → weight_released v p.released ≡ weight v p.granted)

module _ {Ctx : Type 0} where
  Empty-Custody : (p : Pump Ctx) → Custody p → p.lease ≡ none → Empty p
  Empty-Custody p c e = (e, λ v. ground (arith, c v, e))

  drop_lease-Empty : (p : Pump Ctx) → Custody p → Empty (drop_lease p)
  drop_lease-Empty p c = (ground arith, λ v. ground (arith, c v))

  settle_lease-Empty : (e : End) (p : Pump Ctx) → Custody p → Empty (settle_lease e p)
  unfolding settle_lease
  settle_lease-Empty e p c = (ground arith, λ v. ground (arith, c v))

  kept_of : {A : Type 0} (r : Out A) (p : Pump Ctx) → Post Inv (λ (_ : A). Inv) (r, p) → Inv p
  kept_of (ok a) p h = h
  kept_of skip p h = h
  kept_of (stop e) p h = h.0

module _ {Ctx : Type 0} (ic : Interceptor Ctx) (env : Env) (setup : Setup) (key : Key)
    (events : List (ℕ × Event)) where
  abbrev Good : Served Ctx → Type 0
  Good r = Settled r.life r.pump

  start_pump-Inv : (p : Pump Ctx) → Custody p → Inv (start_pump ic env setup key events p)
  unfolding start_pump new_pump
  start_pump-Inv p c = (ground arith, ground arith, c)

  end_pump-Good :
      (r : Option End × Pump Ctx) (s : Shared)
      → Inv r.1
      → Good (end_pump ic env setup key events r s)
  unfolding end_pump
  end_pump-Good (none, p) s h = h.2
  end_pump-Good (some e, p) s h = settle_lease-Empty e p h.2

  if-Good : (b : Bool) (x y : Served Ctx) → Good x → Good y → Good (if b then x else y)
  if-Good true x y g k = g
  if-Good false x y g k = k

  with_parameters-Good :
      (o : Option (List (String × String))) (p : Pump Ctx) (s : Shared)
      → Inv p
      → Good (with_parameters ic env setup key events o p s)
  unfolding with_parameters
  with_parameters-Good none p s h = drop_lease-Empty p h.2
  with_parameters-Good (some parameters) p s h =
      if-Good (setup.finish_authentication parameters) _ _
        (end_pump-Good _ _
          (run-Kept ic env events (start_pump ic env setup key events p) (start_pump-Inv p h.2)))
        (drop_lease-Empty p h.2)

  log_in-Good :
      (info : SessionInfo) (p : Pump Ctx) (s : Shared)
      → Inv p
      → Good (log_in ic env setup key events info p s)
  unfolding log_in
  log_in-Good info p s h =
      let (r, p') = server_parameters ic env setup p in
      with_parameters-Good _ p' _ (kept_of r p' ((server_parameters-Keeps ic env setup).at p h))

  -- Before the set-up a session has no lease.
  abbrev Unleased : Pump Ctx → Type 0
  Unleased p = Inv p × (p.lease ≡ none)

  ends_Good : (p : Pump Ctx) → Unleased p → Empty p
  ends_Good p h = Empty-Custody p h.0.2 h.1

  send_or_ignore-Empty :
      (m : BackendMessage) (p : Pump Ctx) → Unleased p → Empty (send_or_ignore m p).1
  unfolding send_or_ignore
  send_or_ignore-Empty m p h = sent (try_send m p.down)
    where
      sent :
          (o : Option Downstream)
          → Empty {Ctx = Ctx}
              (elim o as (λ _. Out (Unit {0}) × Pump Ctx) [
                | none ↦ (ok tt, p)
                | some d ↦ (ok tt, record p { down = d })
              ]).1
      sent none = ends_Good p h
      sent (some d) = ends_Good (record p { down = d }) h

  refuse-Good :
      (code : String) (message : Message) (p : Pump Ctx) (s : Shared)
      → Unleased p
      → Good (refuse ic env setup key events code message p s)
  unfolding refuse
  refuse-Good code message p s h = send_or_ignore-Empty (fatal code message) p h

  end_admin-Good :
      (p : Pump Ctx) (r : Option End × Downstream) (s : Shared)
      → Unleased p
      → Good (end_admin ic env setup key events p r s)
  unfolding end_admin
  end_admin-Good p (none, d) s h = h.0.2
  end_admin-Good p (some e, d) s h = ends_Good (record p { down = d }) h

  serve_admin-Good :
      (info : SessionInfo) (p : Pump Ctx) (s : Shared)
      → Unleased p
      → Good (serve_admin ic env setup key events info p s)
  unfolding serve_admin
  serve_admin-Good info p s h =
      if-Good (setup.finish_authentication (admin_parameters setup.version)) _ _
        (end_admin-Good p _ _ h) (ends_Good p h)

  run_session_ready-Good :
      (params : SessionParams) (addr : String) (p : Pump Ctx) (s : Shared)
      → Unleased p
      → Good (run_session_ready ic env setup key events params addr p s)
  unfolding run_session_ready
  run_session_ready-Good params addr p s h =
      let info = session_info setup params key.pid addr p.now in
      if-Good params.replication _ _ (refuse-Good "0A000" unsupported_replication p s h) (
        if-Good (str_eq params.user "") _ _ (refuse-Good "28000" no_user p s h)
          (if-Good info.is_admin _ _ (serve_admin-Good info p s h) (log_in-Good info p s h.0)))

  by_version-Good :
      (major minor : ℕ) (params : SessionParams) (addr : String) (p : Pump Ctx) (s : Shared)
      → Unleased p
      → Good (by_version ic env setup key events addr major minor params p s)
  unfolding by_version
  by_version-Good major minor params addr p s h =
      if-Good (not (major == 3)) _ _ (refuse-Good "08P01" (unsupported_protocol major minor) p s h)
        (if-Good (minor == 0) _ _ (run_session_ready-Good params addr p s h)
          (negotiated (try_send negotiate_version p.down)))
    where
      negotiated :
          (o : Option Downstream)
          → Good (elim o [
            | none ↦ record { life = broke_off; pump = p; shared = s }
            | some d ↦
                run_session_ready ic env setup key events params addr (record p { down = d }) s
          ])
      negotiated none = ends_Good p h
      negotiated (some d) = run_session_ready-Good params addr (record p { down = d }) s h

module _ {Ctx : Type 0} (ic : Interceptor Ctx) (env : Env) (setup : Setup) (key : Key)
    (events : List (ℕ × Event)) (addr : String) where
  starts_Good :
      (first : First) (p : Pump Ctx) (s : Shared)
      → Unleased ic env setup key events p
      → Good ic env setup key events (run_session ic env setup key events addr first p s)
  unfolding run_session
  starts_Good (startup major minor parameters) p s h =
      by_version-Good ic (session_env env parameters) setup key events major minor
        (from_startup parameters) addr p s h
  starts_Good (cancel_request target) p s h = ends_Good ic env setup key events p h
  starts_Good another p s h = refuse-Good ic env setup key events "08P01" expected_startup p s h
  starts_Good garbage p s h = ends_Good ic env setup key events p h
  starts_Good closed p s h = ends_Good ic env setup key events p h

  -- Leases are conserved, whatever the client sends, the server, the hooks, the pools, the other
  -- sessions and the scheduler do, and wherever the session ends: each lease that a pool gave to the
  -- session, for an attach or for a leg of a scatter, is, while the session runs, either the one
  -- that it holds or given up, and never given up twice; when it has ended, it holds none and all of
  -- them have been given up. Leases count as the same when their connections were opened at the same
  -- instant: the sums agree for any weights of the instants.
  run_session-returns :
      (first : First) (now : ℕ) (down : Downstream) (hooks : Option (SessionHooks Ctx)) (s : Shared)
      → let r =
          run_session ic env setup key events addr first
            (new_pump env.route now none down hooks)
            s in
        Settled r.life r.pump
  unfolding new_pump
  run_session-returns first now down hooks s =
      starts_Good first (new_pump env.route now none down hooks) s
        (new_pump-Inv env.route now none down hooks, refl)
