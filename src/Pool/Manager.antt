-- ===== src/Pool/Manager.antt =====
-- The registry of pools and the sweeper (crates/pgferry/src/pool.rs): `PoolManager::get_or_create`,
-- `run_sweeper` for one period, `Pool::sweep`.
use pgferry.Prelude.{
  ℕ, ◌-◌, String, Option, none, some, List, [], ◌∷◌, ◌++◌, map, Bool, true, false, ◌&&◌, ◌||◌, ltb,
  if◌then◌else◌, str_eq, length,
}
use pgferry.Pool.{Pool, PoolKey, PoolConfig, Parked, fetch_add, new}

unfoldable pub database_eq : Option String → Option String → Bool
database_eq none none = true
database_eq (some a) (some b) = str_eq a b
database_eq _ _ = false

-- The derived `PartialEq` of `PoolKey`.
unfoldable pub key_eq : PoolKey → PoolKey → Bool
unfolding database_eq
key_eq a b =
    str_eq a.route b.route
    && (str_eq a.endpoint b.endpoint && (str_eq a.user b.user && database_eq a.database b.database))

unfoldable pub find_pool : PoolKey → List Pool → Option Pool
unfolding key_eq
find_pool key [] = none
find_pool key (p ∷ ps) = if key_eq p.key key then some p else find_pool key ps

-- The pool of `key`, and the registry with it.
unfoldable pub get_or_create : PoolKey → PoolConfig → List Pool → Pool × List Pool
unfolding find_pool new
get_or_create key config pools = elim (find_pool key pools) [
  | some p ↦ (p, pools)
  | none ↦ (new key config, pools ++ new key config ∷ [])
]

unfoldable pub is_stale : PoolConfig → ℕ → Parked → Bool
is_stale config now k =
    ltb config.idle_timeout (now - k.idle_since) || ltb config.max_lifetime (now - k.created_at)

-- `idle.retain(..)`.
unfoldable pub retained : PoolConfig → ℕ → List Parked → List Parked
unfolding is_stale
retained config now [] = []
retained config now (k ∷ ks) =
    if is_stale config now k then retained config now ks else k ∷ retained config now ks

unfoldable pub sweep : ℕ → Pool → Pool
unfolding retained
sweep now p =
    let kept = retained p.config now p.idle in
    record p {
      idle = kept;
      metrics = record (p.metrics) {
        evicted = fetch_add p.metrics.evicted (length p.idle - length kept);
      };
    }

-- One period of `run_sweeper`.
unfoldable pub sweep_all : ℕ → List Pool → List Pool
unfolding sweep
sweep_all now = map (sweep now)
