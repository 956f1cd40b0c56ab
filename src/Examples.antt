-- ===== src/Examples.antt =====
-- Concrete connections, pools, rows and sessions, at which the theorems of the library are applied.
pub mod Pools
pub mod Sessions
pub mod Merges
pub mod Routes
pub mod Failovers
pub mod Splits
pub mod Services
pub mod Logins
pub mod Leases
pub mod Gateways
use pgferry.Prelude.{ℕ, String, Option, none, some, List, [], ◌∷◌, Bool, true, false, insert}
use pgferry.Wire.{TransactionStatus, ready_for_query, DataRow}
use pgferry.Wire
use pgferry.Config.{RouteConfig, no_tls}
use pgferry.Conn.{Conn, Item, received, broken}
use pgferry.Intercept.{Interceptor, noop}
use pgferry.Pool.{
  PoolKey, PoolConfig, default_config, default_hygiene, Pool, Parked, UpstreamLease, new,
}
use pgferry.Pool.Sanitize.{SimpleQuery, Answer, answered}
use pgferry.Session.{Downstream, Pump, Env, Checkout, leased}
use pgferry.Session.Events.{new_pump}

abbrev pub conn : ℕ → List Item → Conn
conn pid incoming = record {
  pid = pid;
  status = Wire.idle;
  parameters = [];
  writable = true;
  cancels = 0;
  outgoing = [];
  incoming = incoming;
}

abbrev pub key : PoolKey
key = record { route = "main"; endpoint = "primary"; user = "app"; database = some "orders" }

abbrev pub other_key : PoolKey
other_key = record { route = "main"; endpoint = "replica"; user = "app"; database = some "orders" }

-- A server that answers each statement at once, outside any transaction.
abbrev pub answers : SimpleQuery
answers sql c = answered (record c { status = Wire.idle })

abbrev pub one_route : RouteConfig
one_route = record {
  name = "main";
  endpoints =
      record { id = "primary"; upstream = "127.0.0.1:5432"; password = none; tls = none } ∷ [];
  password = none;
  tls = no_tls;
}

abbrev pub env : Env
env = record {
  route = one_route;
  transaction_mode = true;
  user = "app";
  database = some "orders";
  startup_parameters = ("application_name", "web") ∷ [];
  simple_query = answers;
  checkout = λ n endpoint. leased (record { conn = conn n []; created_at = 0 });
  next_leg = λ k. 0;
}

abbrev pub down : Downstream
down = record { status = Wire.idle; room = 9; sent = [] }

abbrev pub hooks : Interceptor (Unit {0})
hooks = noop

abbrev pub lease : UpstreamLease
lease = record { conn = conn 7 []; created_at = 0 }

abbrev pub detached_session : Pump (Unit {0})
detached_session = new_pump one_route 0 none down none
