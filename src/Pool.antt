-- ===== src/Pool.antt =====
-- The state of crates/pgferry/src/pool.rs: pool keys and settings, parked connections, leases, the
-- pool of one key with its counters. Times are numbers of nanoseconds, and `now` is an argument of
-- each operation; an atomic counter of 64 bits keeps its wrap-around.
pub mod Sanitize
pub mod Parameters
pub mod Checkout
pub mod Checkin
pub mod Manager
pub mod Bounds
pub mod Histories
pub mod Clean
pub mod Reuse
pub mod Startup
pub mod Literals
pub mod Registry
use pgferry.Prelude.{
  ℕ, ◌+◌, ◌-◌, ◌*◌, ◌%◌, ◌^◌, String, Option, none, some, List, [], ◌∷◌, Bool, false,
}
use Prim.Native.Nat.{max}
use pgferry.Conn.{Conn}

pub record PoolKey : Type 0 where
  pub route : String
  pub endpoint : String
  pub user : String
  pub database : Option String

pub data PoolMode : Type 0 where
  session transaction : PoolMode

pub record PoolConfig : Type 0 where
  pub mode : PoolMode
  pub max_size : ℕ
  pub idle_timeout : ℕ
  pub max_lifetime : ℕ
  pub stale_after : ℕ
  pub sweep_interval : ℕ

abbrev pub seconds : ℕ → ℕ
seconds n = n * 1_000_000_000

abbrev pub default_config : PoolConfig
default_config = record {
  mode = PoolMode.session;
  max_size = 16;
  idle_timeout = seconds 600;
  max_lifetime = seconds 3600;
  stale_after = seconds 30;
  sweep_interval = seconds 15;
}

pub data CopyCleanup : Type 0 where
  no_copy client_owes_copy server_streams_copy : CopyCleanup

pub record Hygiene : Type 0 where
  pub awaiting_response : Bool
  pub copy : CopyCleanup

abbrev pub default_hygiene : Hygiene
default_hygiene = record { awaiting_response = false; copy = CopyCleanup.no_copy }

pub record Metrics : Type 0 where
  pub checkouts : ℕ
  pub reused : ℕ
  pub created : ℕ
  pub checked_in : ℕ
  pub dropped : ℕ
  pub probed : ℕ
  pub evicted : ℕ
  -- `AtomicI64`, as bit patterns
  pub active : ℕ
  pub waiting : ℕ

abbrev pub zero_metrics : Metrics
zero_metrics = record {
  checkouts = 0;
  reused = 0;
  created = 0;
  checked_in = 0;
  dropped = 0;
  probed = 0;
  evicted = 0;
  active = 0;
  waiting = 0;
}

-- `fetch_add(k)` and `fetch_sub(1)` on a counter of 64 bits.
abbrev pub fetch_add : ℕ → ℕ → ℕ
fetch_add n k = (n + k) % 2 ^ 64

abbrev pub fetch_sub_one : ℕ → ℕ
fetch_sub_one n = (n + (2 ^ 64 - 1)) % 2 ^ 64

pub record Parked : Type 0 where
  pub conn : Conn
  pub idle_since : ℕ
  pub created_at : ℕ

-- The permit that a lease holds is the one taken from its pool's `permits`.
pub record UpstreamLease : Type 0 where
  pub conn : Conn
  pub created_at : ℕ

-- `permits` counts the free permits of the semaphore; the head of `idle` is the top of the stack.
pub record Pool : Type 0 where
  pub key : PoolKey
  pub config : PoolConfig
  pub permits : ℕ
  pub idle : List Parked
  pub baseline_params : Option (List (String × String))
  pub metrics : Metrics

abbrev pub capacity : PoolConfig → ℕ
capacity config = max config.max_size 1

unfoldable pub new : PoolKey → PoolConfig → Pool
new key config = record {
  key = key;
  config = config;
  permits = capacity config;
  idle = [];
  baseline_params = none;
  metrics = zero_metrics;
}
