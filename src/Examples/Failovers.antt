-- ===== src/Examples/Failovers.antt =====
-- The theorem on failover through a session's attach, applied: the primary refuses, the replica serves.
use pgferry.Prelude.{
  ◌+◌, ◌*◌, ◌≤◌, ◌≡◌, refl, some, none, List, [], ◌∷◌, true, false, str_eq, lookup, if◌then◌else◌,
  is_some,
}
use pgferry.Config.{EndpointConfig, no_tls}
use pgferry.Examples.{env, down, lease}
use pgferry.Examples.Routes.{primary, replica}
use pgferry.Pool.{default_hygiene}
use pgferry.Pool.Parameters.{sync_startup_parameters, sync_parameters}
use pgferry.Routing.{EndpointGroup, from_endpoints}
use pgferry.Routing.Router.{failover_router}
use pgferry.Session.{Env, Pump, SessionHooks, default_cycle, leased, refused}
use pgferry.Session.Effects.{ok}
use pgferry.Session.Attach.{ensure_attached}
use pgferry.Session.Failover.{mid}
use pgferry.Session.Failover.Reaches.{Refuses, Serves, ensure_attached-fails_over}

abbrev two_endpoints : List EndpointConfig
two_endpoints = primary ∷ replica ∷ []

abbrev half_down : Env
half_down = record env {
  route = record { name = "main"; endpoints = two_endpoints; password = none; tls = no_tls };
  startup_parameters = [];
  checkout = λ n id. if str_eq id "replica" then leased lease else refused "down";
}

abbrev fresh : Pump EndpointGroup
fresh = record {
  now = 0;
  down = down;
  lease = none;
  current_endpoint = none;
  fed_since_rfq = 0;
  cycle_is_extended = false;
  frontend = 0;
  backend = 0;
  hygiene = default_hygiene;
  registry = [];
  guc_overrides = [];
  lease_dirty = false;
  swallow_until_sync = false;
  draining = false;
  attached = false;
  hooks = none;
  released = [];
  checkouts = 0;
  granted = [];
}

abbrev routed : SessionHooks EndpointGroup
routed = record { ctx = from_endpoints two_endpoints; schema = []; cycle = default_cycle 0 }

primary-Refuses : Refuses half_down primary
primary-Refuses n = ("down", refl)

replica_syncs :
    sync_startup_parameters half_down.simple_query half_down.startup_parameters lease.conn
    ≡ some lease.conn
unfolding sync_startup_parameters sync_parameters lookup
replica_syncs = refl

replica-Serves : Serves half_down replica
replica-Serves n = (lease, lease.conn, refl, replica_syncs)

ensure_attached-fails_over_example :
    let r =
      ensure_attached
        (failover_router 6)
        half_down
        none
        (mid half_down 6 none fresh routed (from_endpoints two_endpoints) 0) in
    (r.0 ≡ ok true)
    × (is_some r.1.lease ≡ true)
    × (r.1.current_endpoint ≡ some "replica")
    × (r.1.checkouts ≤ 0 + 2 * 1 + 1)
ensure_attached-fails_over_example =
    ensure_attached-fails_over half_down 6 none fresh routed replica [] replica-Serves refl refl 0
      (primary ∷ []) refl (primary-Refuses, tt) refl
