-- ===== src/Session/Startup/Login.antt =====
-- `run_session` and `run_session_ready` of crates/pgferry/src/session.rs, and the session around the
-- loop of `run_admin_session` (crates/pgferry/src/admin.rs).
use pgferry.Prelude.{ℕ, String, Option, none, some, List, Bool, if◌then◌else◌, str_eq, not, ◌==◌}
use pgferry.Admin.{admin_parameters, run_admin}
use pgferry.Cancel
use pgferry.Cancel.{Key, SessionMap}
use pgferry.Intercept.{Interceptor}
use pgferry.Runtime.{SessionInfo}
use pgferry.Session.{Downstream, dropped, End, Pump, Env}
use pgferry.Session.Effects.{try_send, Out, ok, skip, stop, send_or_ignore, give_up}
use pgferry.Session.Events.{Event, run, new_pump, settle_lease}
use pgferry.Wire.{
  Message, expected_startup, unsupported_replication, no_user, unsupported_protocol, BackendMessage,
}
use pgferry.Session.Startup.{
  SessionParams, from_startup, Shared, Setup, session_info, fatal, turned_away, broke_off, running,
  ended, Served, retire, listed, cancellable, not_cancellable,
}
use pgferry.Session.Startup.Baseline.{server_parameters}

-- `NegotiateProtocolVersion`, by the byte of its kind.
abbrev pub negotiate_version : BackendMessage
negotiate_version = BackendMessage.other b'v'

abbrev is_empty_text : String → Bool
is_empty_text s = str_eq s ""

-- A lease that is dropped, not settled, is closed past the pool's counters.
abbrev pub drop_lease : {Ctx : Type 0} → Pump Ctx → Pump Ctx
drop_lease p = elim p.lease [ none ↦ p | some l ↦ give_up (dropped l) p ]

abbrev pub value_of : {A : Type 0} → Out (Option A) → Option A
value_of (ok o) = o
value_of skip = none
value_of (stop e) = none

module _ {Ctx : Type 0} (ic : Interceptor Ctx) (env : Env) (setup : Setup) (key : Key)
    (events : List (ℕ × Event)) where
  -- The pump starts from the lease, the hooks and the client's connection of the set-up.
  unfoldable pub start_pump : Pump Ctx → Pump Ctx
  unfolding new_pump
  start_pump p = record (new_pump env.route p.now p.lease p.down p.hooks) {
    released = p.released;
    checkouts = p.checkouts;
    granted = p.granted;
  }

  unfoldable pub end_pump : Option End × Pump Ctx → Shared → Served Ctx
  unfolding settle_lease
  end_pump (none, p) s = record { life = running; pump = p; shared = s }
  end_pump (some e, p) s = record {
    life = ended e;
    pump = settle_lease e p;
    shared = retire key.pid (not_cancellable key s);
  }

  unfoldable pub with_parameters : Option (List (String × String)) → Pump Ctx → Shared → Served Ctx
  unfolding end_pump start_pump run
  with_parameters none p s = record {
    life = turned_away;
    pump = drop_lease p;
    shared = retire key.pid s;
  }
  with_parameters (some parameters) p s =
      if setup.finish_authentication parameters
      then end_pump (run ic env events (start_pump p)) (setup.others (cancellable key s))
      else record { life = broke_off; pump = drop_lease p; shared = retire key.pid s }

  unfoldable pub log_in : SessionInfo → Pump Ctx → Shared → Served Ctx
  unfolding server_parameters with_parameters
  log_in info p s =
      let (r, p') = server_parameters ic env setup p in
      with_parameters (value_of r) p' (setup.others (listed info s))

  unfoldable pub end_admin : Pump Ctx → Option End × Downstream → Shared → Served Ctx
  end_admin p (none, d) s = record { life = running; pump = record p { down = d }; shared = s }
  end_admin p (some e, d) s = record {
    life = ended e;
    pump = record p { down = d };
    shared = retire key.pid (not_cancellable key s);
  }

  -- `run_admin_session`.
  unfoldable pub serve_admin : SessionInfo → Pump Ctx → Shared → Served Ctx
  unfolding end_admin run_admin
  serve_admin info p s =
      if setup.finish_authentication (admin_parameters setup.version)
      then end_admin p (run_admin setup.encoders setup.admin_events p.down)
          (setup.others (cancellable key (listed info s)))
      else record { life = broke_off; pump = p; shared = retire key.pid (listed info s) }

  unfoldable pub refuse : String → Message → Pump Ctx → Shared → Served Ctx
  unfolding send_or_ignore
  refuse code message p s = record {
    life = turned_away;
    pump = (send_or_ignore (fatal code message) p).1;
    shared = s;
  }

  unfoldable pub run_session_ready : SessionParams → String → Pump Ctx → Shared → Served Ctx
  unfolding session_info log_in serve_admin refuse
  run_session_ready params addr p s =
      let info = session_info setup params key.pid addr p.now in
      if params.replication
      then refuse "0A000" unsupported_replication p s
      else if is_empty_text params.user
      then refuse "28000" no_user p s
      else if info.is_admin
      then serve_admin info p s
      else log_in info p s

-- The first message of a connection.
pub data First : Type 0 where
  startup : ℕ → ℕ → List (String × String) → First
  cancel_request : Key → First
  another garbage closed : First

module _ {Ctx : Type 0} (ic : Interceptor Ctx) (env : Env) (setup : Setup) (key : Key)
    (events : List (ℕ × Event)) (addr : String) where
  -- A protocol 3 with a minor version is negotiated down to 3.0; others are refused.
  unfoldable pub by_version : ℕ → ℕ → SessionParams → Pump Ctx → Shared → Served Ctx
  unfolding run_session_ready refuse try_send
  by_version major minor params p s =
      if not (major == 3)
      then refuse ic env setup key events "08P01" (unsupported_protocol major minor) p s
      else if minor == 0
      then run_session_ready ic env setup key events params addr p s
      else elim (try_send negotiate_version p.down) [
        | none ↦ record { life = broke_off; pump = p; shared = s }
        | some d ↦ run_session_ready ic env setup key events params addr (record p { down = d }) s
      ]

-- The settings of a session whose startup packet has the given parameters.
abbrev pub session_env : Env → List (String × String) → Env
unfolding from_startup
session_env env parameters =
    let params = from_startup parameters in
    record env { user = params.user; database = params.database; startup_parameters = parameters }

module _ {Ctx : Type 0} (ic : Interceptor Ctx) (env : Env) (setup : Setup) (key : Key)
    (events : List (ℕ × Event)) (addr : String) where
  -- `run_session` behind the negotiation of TLS; `key` is the virtual pid and secret key that a
  -- session gets.
  unfoldable pub run_session : First → Pump Ctx → Shared → Served Ctx
  unfolding by_version from_startup refuse
  run_session (startup major minor parameters) p s =
      by_version ic (session_env env parameters) setup key events addr major minor
        (from_startup parameters) p s
  run_session (cancel_request target) p s = record {
    life = turned_away;
    pump = p;
    shared = record s { router = (Cancel.cancel target s.router).1 };
  }
  run_session another p s = refuse ic env setup key events "08P01" expected_startup p s
  run_session garbage p s = record { life = turned_away; pump = p; shared = s }
  run_session closed p s = record { life = turned_away; pump = p; shared = s }
