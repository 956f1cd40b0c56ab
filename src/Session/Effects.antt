-- ===== src/Session/Effects.antt =====
-- The actions that handlers of crates/pgferry/src/session.rs are written with: sending to the
-- client, the cycle's telemetry, the hooks of the routing phase, giving a lease up.
use pgferry.Prelude.{
  ℕ, zero, suc, ◌-◌, String, Option, none, some, List, [], ◌∷◌, ◌++◌, true, false, if◌then◌else◌,
}
use mathlib.Core.Option
use pgferry.Wire.{TransactionStatus, BackendMessage, ready_for_query}
use pgferry.Wire
use pgferry.Intercept.{
  CycleKind, simple, CycleError, CycleReport, Interceptor, RoutingInfo, UpstreamError,
  RetryDecision, default_endpoint,
}
use pgferry.Intercept
use pgferry.Pool.{UpstreamLease}
use pgferry.Session.{CycleTracking, SessionHooks, Downstream, Release, End, client_gone, Pump, Env}

pub data Out {ℓ} (A : Type ℓ) : Type ℓ where
  ok : A → Out A
  skip : Out A
  stop : End → Out A

abbrev pub M : Type 0 → Type 0 → Type 0
M Ctx A = Pump Ctx → Out A × Pump Ctx

unfoldable pub try_send : BackendMessage → Downstream → Option Downstream
try_send m d = elim d.room [
  | zero ↦ none
  | suc n ↦ some (record d { room = n; sent = d.sent ++ m ∷ [] })
]

-- `lease.as_ref().map(|l| l.conn.transaction_status()).unwrap_or(Idle)`.
abbrev pub lease_status : Option UpstreamLease → TransactionStatus
lease_status none = Wire.idle
lease_status (some l) = l.conn.status

module _ {Ctx A B : Type 0} where
  abbrev pub continue : Out A → (A → M Ctx B) → M Ctx B
  continue (ok a) f p = f a p
  continue skip f p = (skip, p)
  continue (stop e) f p = (stop e, p)

  infixl 5 ◌>>=◌ ◌>>◌
  unfoldable pub ◌>>=◌ : M Ctx A → (A → M Ctx B) → M Ctx B
  ◌>>=◌ m f p = let (r, p') = m p in continue r f p'

  abbrev pub ◌>>◌ : M Ctx A → M Ctx B → M Ctx B
  m >> k = m >>= λ _. k

module _ {Ctx A : Type 0} where
  unfoldable pub pure : A → M Ctx A
  pure a p = (ok a, p)

  unfoldable pub next_iteration : M Ctx A
  next_iteration p = (skip, p)

  unfoldable pub break : End → M Ctx A
  break e p = (stop e, p)

  unfoldable pub gets : (Pump Ctx → A) → M Ctx A
  gets f p = (ok (f p), p)

module _ {Ctx : Type 0} where
  unfoldable pub modify : (Pump Ctx → Pump Ctx) → M Ctx (Unit {0})
  modify f p = (ok tt, f p)

  -- `downstream.send(m).await`, where a failure ends the session.
  unfoldable pub send : BackendMessage → M Ctx (Unit {0})
  unfolding try_send
  send m p = elim (try_send m p.down) [
    | none ↦ (stop client_gone, p)
    | some d ↦ (ok tt, record p { down = d })
  ]

  -- `let _ = downstream.send(m).await`.
  unfoldable pub send_or_ignore : BackendMessage → M Ctx (Unit {0})
  unfolding try_send
  send_or_ignore m p = elim (try_send m p.down) [
    | none ↦ (ok tt, p)
    | some d ↦ (ok tt, record p { down = d })
  ]

  unfoldable pub send_all : List BackendMessage → M Ctx (Unit {0})
  send_all [] = pure tt
  send_all (m ∷ ms) = send m >> send_all ms

  unfoldable pub send_ready_for_query : TransactionStatus → M Ctx (Unit {0})
  send_ready_for_query s = send (ready_for_query s)

  unfoldable pub set_down_status : TransactionStatus → M Ctx (Unit {0})
  set_down_status s = modify λ p. record p { down = record (p.down) { status = s } }

-- `CycleTracking::start` and `CycleTracking::finish`.
unfoldable pub start : ℕ → Option String → CycleKind → CycleTracking → CycleTracking
start now sql kind c = record {
  active = true;
  sql = sql;
  kind = kind;
  started = now;
  tag = none;
  rows = 0;
  dropped_pending = 0;
  dropped_total = 0;
  error = none;
}

unfoldable pub report_of : ℕ → CycleTracking → CycleReport
report_of now c = record {
  sql = c.sql;
  kind = c.kind;
  tag = c.tag;
  rows = c.rows;
  rows_dropped = c.dropped_total;
  error = c.error;
  latency = now - c.started;
}

unfoldable pub finished : CycleTracking → CycleTracking
finished c = record c { active = false; sql = none; kind = simple; tag = none; error = none }

module _ {Ctx : Type 0} (ic : Interceptor Ctx) where
  unfoldable pub end_hooks : ℕ → SessionHooks Ctx → SessionHooks Ctx
  unfolding report_of finished
  end_hooks now h = record h {
    ctx = ic.on_cycle_end h.ctx (report_of now h.cycle);
    cycle = finished h.cycle;
  }

  -- The logging phase of a cycle.
  unfoldable pub end_cycle : M Ctx (Unit {0})
  end_cycle = modify λ p. record p { hooks = Option.map (end_hooks p.now) p.hooks }

  unfoldable pub end_hooks_if_active : ℕ → SessionHooks Ctx → SessionHooks Ctx
  end_hooks_if_active now h = if h.cycle.active then end_hooks now h else h

  unfoldable pub end_cycle_if_active : M Ctx (Unit {0})
  unfolding end_hooks_if_active
  end_cycle_if_active =
      modify λ p. record p { hooks = Option.map (end_hooks_if_active p.now) p.hooks }

  unfoldable pub route_hooks :
      RoutingInfo → Option (SessionHooks Ctx) → String × Option (SessionHooks Ctx)
  unfolding default_endpoint
  route_hooks info none = (default_endpoint info, none)
  route_hooks info (some h) =
      let (ctx', id) = ic.upstream h.ctx info in (id, some (record h { ctx = ctx' }))

  unfoldable pub dispatch_upstream : Env → Option String → M Ctx String
  dispatch_upstream env sql p =
      let info : RoutingInfo = record {
        endpoints = env.route.endpoints;
        user = env.user;
        database = env.database;
        sql = sql;
      } in
      let (id, hooks') = route_hooks info p.hooks in (ok id, record p { hooks = hooks' })

  unfoldable pub decide :
      UpstreamError → Option (SessionHooks Ctx) → RetryDecision × Option (SessionHooks Ctx)
  decide error none = (Intercept.relink, none)
  decide error (some h) =
      let (ctx', decision) = ic.on_upstream_error h.ctx error in
      (decision, some (record h { ctx = ctx' }))

  unfoldable pub dispatch_on_upstream_error : UpstreamError → M Ctx RetryDecision
  unfolding decide
  dispatch_on_upstream_error error p =
      let (decision, hooks') = decide error p.hooks in (ok decision, record p { hooks = hooks' })

  unfoldable pub dispatch_on_upstream_connected : String → M Ctx (Unit {0})
  dispatch_on_upstream_connected id = modify λ p. record p {
    hooks =
        Option.map {A = SessionHooks Ctx}
          (λ h. record h { ctx = ic.on_upstream_connected h.ctx id }) p.hooks;
  }

module _ {Ctx : Type 0} where
  abbrev pub give_up : Release → Pump Ctx → Pump Ctx
  give_up r p = record p { lease = none; released = r ∷ p.released }

  unfoldable pub destroy_lease : Pump Ctx → Pump Ctx
  destroy_lease p = elim p.lease [ none ↦ p | some l ↦ give_up (Release.destroyed l) p ]
