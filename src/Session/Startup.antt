-- ===== src/Session/Startup.antt =====
-- From an accepted connection to the end of its session (crates/pgferry/src/session.rs): the startup
-- parameters, what the sessions share, and how a session may end. What the other sessions do to the
-- registries in the meantime is given, as is pgwire's `finish_authentication`.
pub mod Baseline
pub mod Login
pub mod Leaves
pub mod Returns
use Prim.Native.Nat.{zero, suc}
use pgferry.Prelude.{
  ℕ, String, Option, none, some, List, [], ◌∷◌, Bool, true, false, ◌||◌, if◌then◌else◌, str_eq,
  lookup, is_some, not, ◌==◌,
}
use mathlib.Core.Option
use pgferry.Admin.{Encoders, View, admin_parameters, run_admin}
use pgferry.Cancel
use pgferry.Cancel.{Key, SessionMap}
use pgferry.Config.{EndpointConfig, endpoint}
use pgferry.Intercept.{Interceptor, UpstreamError, RetryDecision}
use pgferry.Runtime
use pgferry.Runtime.{SessionInfo, RuntimeState}
use pgferry.Session.{Downstream, dropped, End, Pump, Env}
use pgferry.Session.Attach.{attempts, ensure_attached}
use pgferry.Session.Effects.{
  try_send, M, Out, ok, skip, stop, pure, send, send_or_ignore, dispatch_upstream,
  dispatch_on_upstream_error, dispatch_on_upstream_connected, give_up, ◌>>=◌, ◌>>◌,
}
use pgferry.Session.Events.{Event, run, new_pump, settle_lease}
use pgferry.Wire.{
  Message, expected_startup, unsupported_replication, no_user, baseline_failed,
  unsupported_protocol, BackendMessage, error_response,
}

pub record SessionParams : Type 0 where
  pub user : String
  pub database : Option String
  pub replication : Bool

abbrev or_empty : Option String → String
or_empty none = ""
or_empty (some s) = s

abbrev asks_replication : Option String → Bool
asks_replication none = false
asks_replication (some v) =
    str_eq v "1" || (str_eq v "true" || (str_eq v "database" || str_eq v "on"))

unfoldable pub from_startup : List (String × String) → SessionParams
unfolding lookup
from_startup parameters = record {
  user = or_empty (lookup "user" parameters);
  database = lookup "database" parameters;
  replication = asks_replication (lookup "replication" parameters);
}

-- The registry of live sessions and the map of cancel keys.
pub record Shared : Type 0 where
  pub runtime : RuntimeState
  pub router : SessionMap

-- What the set-up is given: the name of the admin database; a pool's answer to the n-th request for
-- its baseline parameters, or the error; whether the rest of the handshake succeeds with the given
-- parameters; what the other sessions do to the registries while this one waits; and the package's
-- version, the encoders and the events of a session on the admin console.
pub record Setup : Type 0 where
  pub admin_database : Option String
  pub baseline : ℕ → String → Option (List (String × String))
  pub finish_authentication : List (String × String) → Bool
  pub others : Shared → Shared
  pub version : String
  pub encoders : Encoders
  pub admin_events : List (View × Event)

abbrev is_database : Option String → Option String → Bool
is_database (some name) (some database) = str_eq name database
is_database _ _ = false

unfoldable pub session_info : Setup → SessionParams → ℕ → String → ℕ → SessionInfo
session_info setup params pid addr now = record {
  pid = pid;
  addr = addr;
  user = params.user;
  database = or_empty params.database;
  is_admin = is_database setup.admin_database params.database;
  attached = false;
  started = now;
}

abbrev pub fatal : String → Message → BackendMessage
fatal code message = error_response (record { severity = "FATAL"; code = code; message = message })

-- How far a session came: it ended before its pump; the handshake broke off; its pump ran until the
-- end given, or runs on.
pub data Life : Type 0 where
  turned_away broke_off running : Life
  ended : End → Life

pub record Served (Ctx : Type 0) : Type 0 where
  pub life : Life
  pub pump : Pump Ctx
  pub shared : Shared

-- The guard's drop.
abbrev pub retire : ℕ → Shared → Shared
retire pid s = record s { runtime = Runtime.unregister pid s.runtime }

abbrev pub listed : SessionInfo → Shared → Shared
listed info s = record s { runtime = Runtime.register info s.runtime }

abbrev pub cancellable : Key → Shared → Shared
cancellable key s = record s { router = Cancel.register key s.router }

abbrev pub not_cancellable : Key → Shared → Shared
not_cancellable key s = record s { router = Cancel.unregister key s.router }
