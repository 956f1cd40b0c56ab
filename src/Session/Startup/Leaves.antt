-- ===== src/Session/Startup/Leaves.antt =====
-- What a session leaves behind when it has ended (crates/pgferry/src/session.rs).
use pgferry.Prelude.{
  ℕ, ◌≡◌, str_eq, ◌∙◌, String, Option, none, some, List, [], ◌∷◌, Bool, true, not, false, arith,
  ◌==◌, if◌then◌else◌, Bool-cases, inl, inr,
}
use pgferry.Cancel
use pgferry.Cancel.{Key, SessionMap}
use pgferry.Cancel.Signals.{get-unregister, get-cancel}
use pgferry.Intercept.{Interceptor}
use pgferry.Runtime.{SessionInfo, without, unregister}
use pgferry.Runtime.Live.{IsFree}
use pgferry.Session.{Downstream, End, Pump, Env}
use pgferry.Admin.{admin_parameters}
use pgferry.Wire.{
  Message, BackendMessage, unsupported_replication, no_user, unsupported_protocol, expected_startup,
}
use pgferry.Session.Effects.{try_send, send_or_ignore}
use pgferry.Session.Events.{Event, settle_lease}
use pgferry.Session.Startup.{
  Setup, Shared, SessionParams, session_info, Served, turned_away, broke_off, running, ended,
  retire, listed, not_cancellable, fatal, from_startup,
}
use pgferry.Session.Startup.Login.{
  drop_lease, run_session_ready, with_parameters, end_pump, end_admin, serve_admin, refuse, log_in,
  by_version, negotiate_version, session_env, First, startup, cancel_request, another, garbage,
  closed, run_session,
}

without-IsFree : (pid : ℕ) (ss : List SessionInfo) → IsFree pid (without pid ss)
unfolding without
without-IsFree pid [] = tt
without-IsFree pid (s ∷ ss) = elim (Bool-cases (s.pid == pid)) [
  | inl same ↦ rw same (without-IsFree pid ss)
  | inr other ↦ rw other (other, without-IsFree pid ss)
]

module _ {Ctx : Type 0} (ic : Interceptor Ctx) (env : Env) (setup : Setup) (key : Key)
    (events : List (ℕ × Event)) where
  -- The registry of sessions does not list the session, and no cancel request reaches it.
  abbrev pub Gone : Shared → Type 0
  Gone s = IsFree key.pid s.runtime.sessions × (Cancel.get key s.router ≡ none)

  -- A session that does not run on is gone and holds no lease.
  abbrev pub Left : Served Ctx → Type 0
  Left r = elim r.life [
    | running ↦ Unit {0}
    | turned_away ↦ Gone r.shared × (r.pump.lease ≡ none)
    | broke_off ↦ Gone r.shared × (r.pump.lease ≡ none)
    | ended e ↦ Gone r.shared × (r.pump.lease ≡ none)
  ]

  drop_lease-none : (p : Pump Ctx) → (drop_lease p).lease ≡ none
  drop_lease-none p = ground arith

  settle_lease-none : (e : End) (p : Pump Ctx) → (settle_lease e p).lease ≡ none
  unfolding settle_lease
  settle_lease-none e p = ground arith

  retire-Gone : (s : Shared) → Cancel.get key s.router ≡ none → Gone (retire key.pid s)
  unfolding unregister
  retire-Gone s h = (without-IsFree key.pid s.runtime.sessions, h)

  end_pump-Left :
      (r : Option End × Pump Ctx) (s : Shared) → Left (end_pump ic env setup key events r s)
  unfolding end_pump
  end_pump-Left (none, p) s = tt
  end_pump-Left (some e, p) s =
      (retire-Gone (not_cancellable key s) (get-unregister key s.router), settle_lease-none e p)

  with_parameters-Left :
      (o : Option (List (String × String))) (p : Pump Ctx) (s : Shared)
      → Cancel.get key s.router ≡ none
      → Left (with_parameters ic env setup key events o p s)
  unfolding with_parameters
  with_parameters-Left none p s h = (retire-Gone s h, drop_lease-none p)
  with_parameters-Left (some parameters) p s h =
      elim (Bool-cases (setup.finish_authentication parameters)) [
        | inl done ↦ rw done (end_pump-Left _ _)
        | inr failed ↦ rw failed (retire-Gone s h, drop_lease-none p)
      ]

  end_admin-Left :
      (p : Pump Ctx) (r : Option End × Downstream) (s : Shared)
      → p.lease ≡ none
      → Left (end_admin ic env setup key events p r s)
  unfolding end_admin
  end_admin-Left p (none, d) s l = tt
  end_admin-Left p (some e, d) s l =
      (retire-Gone (not_cancellable key s) (get-unregister key s.router), l)

  serve_admin-Left :
      (info : SessionInfo) (p : Pump Ctx) (s : Shared)
      → Cancel.get key s.router ≡ none
      → p.lease ≡ none
      → Left (serve_admin ic env setup key events info p s)
  unfolding serve_admin
  serve_admin-Left info p s h l =
      elim (Bool-cases (setup.finish_authentication (admin_parameters setup.version))) [
        | inl done ↦ rw done (end_admin-Left p _ _ l)
        | inr failed ↦ rw failed (retire-Gone (listed info s) h, l)
      ]

  send_or_ignore-lease :
      (m : BackendMessage) (p : Pump Ctx) → (send_or_ignore m p).1.lease ≡ p.lease
  unfolding send_or_ignore
  send_or_ignore-lease m p = ground arith

  refuse-Left :
      (code : String) (message : Message) (p : Pump Ctx) (s : Shared)
      → Gone s
      → p.lease ≡ none
      → Left (refuse ic env setup key events code message p s)
  unfolding refuse send_or_ignore
  refuse-Left code message p s h l = (h, send_or_ignore-lease (fatal code message) p ∙ l)

  -- The other sessions do not register this session's key.
  abbrev pub OthersApart : Type 0
  OthersApart =
      (s : Shared) → Cancel.get key s.router ≡ none → Cancel.get key (setup.others s).router ≡ none

  module _ (apart : OthersApart) where
    log_in-Left :
        (info : SessionInfo) (p : Pump Ctx) (s : Shared)
        → Cancel.get key s.router ≡ none
        → Left (log_in ic env setup key events info p s)
    unfolding log_in
    log_in-Left info p s h =
        with_parameters-Left _ _ (setup.others (listed info s)) (apart (listed info s) h)

    if-Left : (b : Bool) (x y : Served Ctx) → Left x → Left y → Left (if b then x else y)
    if-Left true x y l m = l
    if-Left false x y l m = m

    run_session_ready-Left :
        (params : SessionParams) (addr : String) (p : Pump Ctx) (s : Shared)
        → Gone s
        → p.lease ≡ none
        → Left (run_session_ready ic env setup key events params addr p s)
    unfolding run_session_ready
    run_session_ready-Left params addr p s h l =
        let info = session_info setup params key.pid addr p.now in
        if-Left params.replication _ _ (refuse-Left "0A000" unsupported_replication p s h l) (
          if-Left (str_eq params.user "") _ _ (refuse-Left "28000" no_user p s h l) (
            if-Left info.is_admin _ _ (serve_admin-Left info p s (h.1) l)
              (log_in-Left info p s (h.1))))

    by_version-Left :
        (major minor : ℕ) (params : SessionParams) (addr : String) (p : Pump Ctx) (s : Shared)
        → Gone s
        → p.lease ≡ none
        → Left (by_version ic env setup key events addr major minor params p s)
    unfolding by_version
    by_version-Left major minor params addr p s h l =
        if-Left (not (major == 3)) _ _
          (refuse-Left "08P01" (unsupported_protocol major minor) p s h l)
          (if-Left (minor == 0) _ _ (run_session_ready-Left params addr p s h l)
            (negotiated (try_send negotiate_version p.down)))
      where
        negotiated :
            (o : Option Downstream)
            → Left (elim o [
              | none ↦ record { life = broke_off; pump = p; shared = s }
              | some d ↦
                  run_session_ready ic env setup key events params addr (record p { down = d }) s
            ])
        negotiated none = (h, l)
        negotiated (some d) = run_session_ready-Left params addr (record p { down = d }) s h l

module _ {Ctx : Type 0} (ic : Interceptor Ctx) (env : Env) (setup : Setup) (key : Key)
    (events : List (ℕ × Event)) (addr : String) where
  -- Whatever the client sends, the server, the hooks, the pools and the scheduler do, and wherever the
  -- session returns, from a bad first packet to the end of its pump: when it has, the registry of
  -- sessions does not list its pid, no cancel request finds its key, and it holds no lease. The
  -- conditions are that pid and key are unused before, and that the other sessions do not register
  -- the same key. A session that panics or is aborted does not return.
  pub run_session-leaves :
      (first : First) (p : Pump Ctx) (s : Shared)
      → OthersApart ic env setup key events
      → Gone ic env setup key events s
      → p.lease ≡ none
      → Left ic env setup key events (run_session ic env setup key events addr first p s)
  unfolding run_session
  run_session-leaves (startup major minor parameters) p s apart h l =
      by_version-Left ic (session_env env parameters) setup key events apart major minor
        (from_startup parameters) addr p s h l
  run_session-leaves (cancel_request target) p s apart h l =
      ((h.0, get-cancel key target s.router (h.1)), l)
  run_session-leaves another p s apart h l =
      refuse-Left ic env setup key events "08P01" expected_startup p s h l
  run_session-leaves garbage p s apart h l = (h, l)
  run_session-leaves closed p s apart h l = (h, l)
