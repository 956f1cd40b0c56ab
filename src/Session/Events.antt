-- ===== src/Session/Events.antt =====
-- The loop of `pump` (crates/pgferry/src/session.rs): each iteration takes one event, from the
-- client, the upstream, the cancel channel or the shutdown signal. The order of the events is the
-- scheduler's choice; the clock moves between them.
use pgferry.Prelude.{
  ℕ, String, is_some, Option, none, some, List, [], ◌∷◌, Bool, true, false, ◌||◌, if◌then◌else◌,
}
use mathlib.Core.Option
use pgferry.Config.{EndpointConfig, RouteConfig}
use pgferry.Wire.{FrontendMessage, terminate, BackendMessage}
use pgferry.Conn.{cancel}
use pgferry.Intercept.{Interceptor}
use pgferry.Pool.{UpstreamLease, CopyCleanup, default_hygiene}
use pgferry.Session.{
  SessionHooks, Downstream, checked_in, destroyed, End, client_gone, upstream_broken, Pump, Env,
}
use pgferry.Session.Effects.{M, Out, ok, stop, break, modify, give_up}
use pgferry.Session.Client.{client_message}
use pgferry.Session.Relay.{server_message, upstream_lost}

-- `from_server` events come only while a connection is leased; `server_eof` and `server_garbage`
-- are its end and an undecodable message.
pub data Event : Type 0 where
  client_eof client_garbage : Event
  from_client : FrontendMessage → Event
  server_eof server_garbage : Event
  from_server : BackendMessage → Event
  cancel_requested shutdown_signaled : Event

-- `.first().map(|e| e.id.clone()).unwrap_or_default()`.
unfoldable pub first_endpoint : List EndpointConfig → String
first_endpoint [] = ""
first_endpoint (e ∷ es) = e.id

abbrev pub copying : CopyCleanup → Bool
copying CopyCleanup.no_copy = false
copying c = true

module _ {Ctx : Type 0} where
  unfoldable pub cancel_upstream : Pump Ctx → Pump Ctx
  cancel_upstream p = elim p.lease [
    | none ↦ p
    | some l ↦ record p { lease = some (record l { conn = cancel l.conn }) }
  ]

  unfoldable pub if_leased :
      (UpstreamLease → M Ctx (Unit {0})) → Option UpstreamLease → M Ctx (Unit {0})
  if_leased k none p = (ok tt, p)
  if_leased k (some l) p = k l p

  unfoldable pub on_upstream : (UpstreamLease → M Ctx (Unit {0})) → M Ctx (Unit {0})
  unfolding if_leased
  on_upstream k p = if_leased k p.lease p

  -- End now when idle; else let the current cycle finish.
  unfoldable pub on_shutdown : M Ctx (Unit {0})
  on_shutdown p =
      if p.hygiene.awaiting_response || copying p.hygiene.copy
      then (ok tt, record p { draining = true })
      else (stop client_gone, p)

module _ {Ctx : Type 0} (ic : Interceptor Ctx) (env : Env) where
  unfoldable pub on_client : FrontendMessage → M Ctx (Unit {0})
  unfolding client_message
  on_client terminate = break client_gone
  on_client m = client_message ic env m

  unfoldable pub handle : Event → M Ctx (Unit {0})
  unfolding on_client on_upstream server_message upstream_lost cancel_upstream on_shutdown
  handle client_eof = break client_gone
  handle client_garbage = break client_gone
  handle (from_client m) = on_client m
  handle server_eof = on_upstream λ l. upstream_lost ic
  handle server_garbage = on_upstream λ l. break upstream_broken
  handle (from_server m) = on_upstream λ l. server_message ic env.transaction_mode l m
  handle cancel_requested = modify cancel_upstream
  handle shutdown_signaled = on_shutdown

  unfoldable pub iterate : ℕ → Event → Pump Ctx → Out (Unit {0}) × Pump Ctx
  unfolding handle
  iterate now e p = handle e (record p { now = now })

-- The iterations up to the end of the session, if the events bring it about.
module _ {Ctx : Type 0} (ic : Interceptor Ctx) (env : Env) where
  unfoldable pub run : List (ℕ × Event) → Pump Ctx → Option End × Pump Ctx
  unfolding iterate
  run [] p = (none, p)
  run ((now, e) ∷ es) p =
      let (r, p') = iterate ic env now e p in elim r [ stop end ↦ (some end, p') | _ ↦ run es p' ]

  -- The rest of a run after one iteration.
  unfoldable pub go_on : List (ℕ × Event) → Out (Unit {0}) → Pump Ctx → Option End × Pump Ctx
  go_on es r p = elim r [ stop end ↦ (some end, p) | _ ↦ run es p ]

-- A session before its first event: detached, or with the lease of its start.
unfoldable pub new_pump :
    {Ctx : Type 0}
    → RouteConfig
    → ℕ
    → Option UpstreamLease
    → Downstream
    → Option (SessionHooks Ctx)
    → Pump Ctx
unfolding first_endpoint
new_pump route now lease down hooks = record {
  now = now;
  down = down;
  lease = lease;
  current_endpoint = Option.map (λ _. first_endpoint route.endpoints) lease;
  fed_since_rfq = 0;
  cycle_is_extended = false;
  frontend = 0;
  backend = 0;
  hygiene = default_hygiene;
  registry = [];
  guc_overrides = [];
  lease_dirty = false;
  swallow_until_sync = false;
  draining = false;
  attached = is_some lease;
  hooks = hooks;
  released = [];
  checkouts = 0;
  granted = elim lease [ none ↦ [] | some l ↦ l ∷ [] ];
}

-- The end of `run_session_ready`: a lease that is left is checked in, or destroyed.
unfoldable pub settle_lease : {Ctx : Type 0} → End → Pump Ctx → Pump Ctx
settle_lease end p = elim p.lease [
  | none ↦ p
  | some l ↦ elim end [
    | upstream_broken ↦ give_up (destroyed l) p
    | _ ↦ give_up (checked_in l p.hygiene) p
  ]
]
