-- ===== src/Pool/Registry.antt =====
-- What a sweep keeps, and how the registry of pools grows (crates/pgferry/src/pool.rs).
use pgferry.Prelude.{
  ℕ, ◌-◌, ◌≤◌, ◌<◌, ◌≡◌, refl, ap, ◌⊎◌, ◌↔◌, Option, none, some, List, [], ◌∷◌, ◌++◌, true, false,
  arith, if◌then◌else◌, eq_iff, String, Bool-cases, inl, inr, leb, ◌&&◌,
}
use pgferry.Pool.{Pool, PoolKey, PoolConfig, Parked, new}
use pgferry.Pool.Manager.{database_eq, key_eq, find_pool, get_or_create, retained, sweep}

database_eq_iff : (a b : Option String) → (database_eq a b ≡ true) ↔ (a ≡ b)
unfolding database_eq
database_eq_iff none none = (λ e. refl, λ e. refl)
database_eq_iff none (some b) = (λ e. cc, λ e. cc)
database_eq_iff (some a) none = (λ e. cc, λ e. cc)
database_eq_iff (some a) (some b) = (λ e. ap some ((eq_iff a b).0 e), λ e. (eq_iff a b).1 (cc e))

key_eq_iff : (a b : PoolKey) → (key_eq a b ≡ true) ↔ (a ≡ b)
unfolding key_eq
key_eq_iff a b = (
  λ e. ground (
    arith,
    eq_iff a.route b.route,
    eq_iff a.endpoint b.endpoint,
    eq_iff a.user b.user,
    database_eq_iff a.database b.database,
  ),
  λ e. ground (
    arith,
    eq_iff a.route b.route,
    eq_iff a.endpoint b.endpoint,
    eq_iff a.user b.user,
    database_eq_iff a.database b.database,
  ),
)

find_pool-append :
    (key : PoolKey) (ps : List Pool) (p : Pool)
    → find_pool key (ps ++ p ∷ []) ≡ elim (find_pool key ps) [
      | some r ↦ some r
      | none ↦ if key_eq p.key key then some p else none
    ]
unfolding find_pool
find_pool-append key [] p = ground arith
find_pool-append key (r ∷ ps) p = ground (arith, find_pool-append key ps p)

get_or_create-find_pool :
    (key : PoolKey) (config : PoolConfig) (pools : List Pool)
    → let r = get_or_create key config pools in find_pool key r.1 ≡ some r.0
unfolding get_or_create new
get_or_create-find_pool key config pools =
    ground (arith, find_pool-append key pools (new key config), key_eq_iff key key)

get_or_create-keeps :
    (key : PoolKey) (config : PoolConfig) (pools : List Pool) (p : Pool)
    → find_pool key pools ≡ some p
    → get_or_create key config pools ≡ (p, pools)
unfolding get_or_create
get_or_create-keeps key config pools p e = ground arith

get_or_create-others :
    (key other : PoolKey) (config : PoolConfig) (pools : List Pool)
    → key_eq key other ≡ false
    → find_pool other (get_or_create key config pools).1 ≡ find_pool other pools
unfolding get_or_create new
get_or_create-others key other config pools ne =
    ground (arith, find_pool-append other pools (new key config))

-- After `get_or_create` the registry finds the pool that was handed out under the key, and under
-- every other key what it found before.
get_or_create-finds :
    (key other : PoolKey) (config : PoolConfig) (pools : List Pool)
    → let r = get_or_create key config pools in
      find_pool other r.1 ≡ (if key_eq key other then some r.0 else find_pool other pools)
get_or_create-finds key other config pools = elim (Bool-cases (key_eq key other)) [
  | inl same ↦ rw (same, (key_eq_iff key other).0 same) (get_or_create-find_pool other config pools)
  | inr apart ↦ rw apart (get_or_create-others key other config pools apart)
]

retained-append :
    (config : PoolConfig) (now : ℕ) (xs ys : List Parked)
    → retained config now (xs ++ ys) ≡ retained config now xs ++ retained config now ys
unfolding retained
retained-append config now [] ys = refl
retained-append config now (k ∷ xs) ys = ground (arith, retained-append config now xs ys)

sweep-keeps :
    (now : ℕ) (p : Pool) (above : List Parked) (k : Parked) (below : List Parked)
    → p.idle ≡ above ++ k ∷ below
    → now - k.idle_since ≤ p.config.idle_timeout
    → now - k.created_at ≤ p.config.max_lifetime
    → let kept = λ (ks : List Parked). retained p.config now ks in
      (sweep now p).idle ≡ kept above ++ k ∷ kept below
unfolding sweep retained
sweep-keeps now p above k below e young recent =
    simp e (ground (arith, retained-append p.config now above (k ∷ below)))

sweep-closes :
    (now : ℕ) (p : Pool) (above : List Parked) (k : Parked) (below : List Parked)
    → p.idle ≡ above ++ k ∷ below
    → (p.config.idle_timeout < now - k.idle_since) ⊎ (p.config.max_lifetime < now - k.created_at)
    → let kept = λ (ks : List Parked). retained p.config now ks in
      (sweep now p).idle ≡ kept above ++ kept below
unfolding sweep retained
sweep-closes now p above k below e stale =
    simp e (ground (arith, retained-append p.config now above (k ∷ below)))

-- A sweep closes a parked connection exactly when it has been idle longer than `idle_timeout` or is
-- older than `max_lifetime`; else it keeps it, in its place; and the others of the pool fare as they
-- do without it.
pub sweep-judges :
    (now : ℕ) (p : Pool) (above : List Parked) (k : Parked) (below : List Parked)
    → p.idle ≡ above ++ k ∷ below
    → let stays =
        leb (now - k.idle_since) p.config.idle_timeout
        && leb (now - k.created_at) p.config.max_lifetime in
      let kept = λ (ks : List Parked). retained p.config now ks in
      (sweep now p).idle ≡ kept above ++ ((if stays then k ∷ [] else []) ++ kept below)
sweep-judges now p above k below e =
    elim (Bool-cases (leb (now - k.idle_since) p.config.idle_timeout)) [
      | inr late ↦ rw late (sweep-closes now p above k below e (inl (ground (arith, late))))
      | inl young ↦ elim (Bool-cases (leb (now - k.created_at) p.config.max_lifetime)) [
        | inr old ↦ rw (young, old) (sweep-closes now p above k below e (inr (ground (arith, old))))
        | inl recent ↦
            rw (young, recent)
              (sweep-keeps now p above k below e (ground (arith, young)) (ground (arith, recent)))
      ]
    ]
