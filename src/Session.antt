-- ===== src/Session.antt =====
-- The state of one session of crates/pgferry/src/session.rs, and the effects of its handlers. The
-- variables of `pump` are the fields of `Pump`; a handler is an action of `M`, which may also end the
-- iteration (`continue`) or the session (`break 'pump`).
pub mod Effects
pub mod Statements
pub mod Attach
pub mod Actions
pub mod Query
pub mod Client
pub mod Server
pub mod Relay
pub mod Events
pub mod Triples
pub mod Custody
pub mod Sound
pub mod Answers
pub mod Startup
pub mod Failover
pub mod Passing
pub mod Draining
use pgferry.Prelude.{ℕ, String, Option, none, some, List, [], ◌∷◌, Bool, false}
use pgferry.Wire.{TransactionStatus, BackendMessage}
use pgferry.Config.{RouteConfig}
use pgferry.Intercept.{CycleKind, CycleError, RowSchema, simple}
use pgferry.Pool.{UpstreamLease, Hygiene}
use pgferry.Pool.Sanitize.{SimpleQuery}

-- Telemetry of the cycle at work.
pub record CycleTracking : Type 0 where
  pub active : Bool
  pub sql : Option String
  pub kind : CycleKind
  pub started : ℕ
  pub tag : Option (List ℕ)
  pub rows : ℕ
  pub dropped_pending : ℕ
  pub dropped_total : ℕ
  pub error : Option CycleError

abbrev pub default_cycle : ℕ → CycleTracking
default_cycle now = record {
  active = false;
  sql = none;
  kind = simple;
  started = now;
  tag = none;
  rows = 0;
  dropped_pending = 0;
  dropped_total = 0;
  error = none;
}

-- The session's side of its interceptor. The interceptor itself is a parameter of the handlers.
pub record SessionHooks (Ctx : Type 0) : Type 0 where
  pub ctx : Ctx
  pub schema : RowSchema
  pub cycle : CycleTracking

-- The client's connection: what was sent on it, and how many more messages it will take.
pub record Downstream : Type 0 where
  pub status : TransactionStatus
  pub room : ℕ
  pub sent : List BackendMessage

-- A named statement: its SQL and its parameter types.
abbrev pub Registry : Type 0
Registry = List (String × (String × List ℕ))

-- How a lease left the session; `dropped` closes it past the pool's counters.
pub data Release : Type 0 where
  checked_in : UpstreamLease → Hygiene → Release
  detached : UpstreamLease → Bool → Release
  destroyed dropped : UpstreamLease → Release

pub data End : Type 0 where
  client_gone upstream_broken panicked : End

pub record Pump (Ctx : Type 0) : Type 0 where
  pub now : ℕ
  pub down : Downstream
  pub lease : Option UpstreamLease
  pub current_endpoint : Option String
  pub fed_since_rfq : ℕ
  pub cycle_is_extended : Bool
  pub frontend : ℕ
  pub backend : ℕ
  pub hygiene : Hygiene
  pub registry : Registry
  pub guc_overrides : List (String × String)
  pub lease_dirty : Bool
  pub swallow_until_sync : Bool
  pub draining : Bool
  -- `SessionInfo::attached`
  pub attached : Bool
  pub hooks : Option (SessionHooks Ctx)
  -- the leases given up so far, the latest first; the number of checkouts asked for; and the leases
  -- that the session was given, by them or at its start
  pub released : List Release
  pub checkouts : ℕ
  pub granted : List UpstreamLease

-- A checkout's result: a lease, or the text of the error.
pub data Checkout : Type 0 where
  leased : UpstreamLease → Checkout
  refused : String → Checkout

abbrev pub given : Checkout → List UpstreamLease → List UpstreamLease
given (leased l) ls = l ∷ ls
given (refused e) ls = ls

-- What a session runs in: its settings, pgwire's `simple_query`, and the pools' answers to its
-- checkouts, the n-th of them on a given endpoint; and which of `k` legs of a scatter that are still
-- at work completes next (taken modulo `k`).
pub record Env : Type 0 where
  pub route : RouteConfig
  pub transaction_mode : Bool
  pub user : String
  pub database : Option String
  pub startup_parameters : List (String × String)
  pub simple_query : SimpleQuery
  pub checkout : ℕ → String → Checkout
  pub next_leg : ℕ → ℕ
