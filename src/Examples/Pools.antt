-- ===== src/Examples/Pools.antt =====
-- The theorems on pools, applied.
use pgferry.Prelude.{
  if◌then◌else◌, leb, ◌&&◌, ◌-◌, ℕ, ◌≡◌, refl, none, some, List, [], ◌∷◌, ◌++◌, true, arith, ◌⊎◌,
  length, inl,
}
use pgferry.Wire.{TransactionStatus, ready_for_query}
use pgferry.Wire
use pgferry.Conn.{Conn, received, pause, drain_until_ready, send}
use pgferry.Pool.{default_config, default_hygiene, Pool, Parked, UpstreamLease, new}
use pgferry.Pool.Sanitize.{answered, sanitize, quiesce, close_cycle, rollback_if_open}
use pgferry.Pool.Checkout.{checkout_granted, acquire, start_waiting}
use pgferry.Pool.Checkin.{checkin_detached}
use pgferry.Pool.Manager.{sweep, retained}
use pgferry.Pool.Bounds.{Accounts}
use pgferry.Pool.Histories.{World, Reach, here, next, waits, checks_out, lease_out, Reach-Accounts}
use pgferry.Pool.Clean.{sanitize-IsClean}
use pgferry.Pool.Startup.{checkin_detached-discards}
use pgferry.Pool.Reuse.{checkout_granted-reuses}
use pgferry.Pool.Registry.{sweep-judges}
use pgferry.Examples.{conn, key, answers}

abbrev ready_next : Conn
ready_next = conn 3 (received (ready_for_query Wire.idle) ∷ [])

abbrev silent_next : Conn
silent_next = conn 4 (pause ∷ received (ready_for_query Wire.idle) ∷ [])

abbrev parked : ℕ → Parked
parked since = record { conn = conn since []; idle_since = since; created_at = since }

abbrev pool : Pool
pool = record (new key default_config) { idle = parked 5 ∷ parked 4 ∷ []; permits = 15 }

-- Long after the first two connections were parked.
abbrev late : ℕ
late = 4_000_000_000_000

abbrev used_pool : Pool
used_pool = record pool { idle = parked 5 ∷ parked late ∷ [] }

-- The pool whose first permit was taken.
abbrev granted : Pool
granted = record (new key default_config) { permits = 15 }

abbrev first_lease : World
first_lease = lease_out (checkout_granted (some (conn 1 [])) 10 granted) [] 0

first_acquire : acquire (start_waiting (new key default_config)) ≡ some granted
unfolding acquire start_waiting new
first_acquire = refl

first_history :
    Reach answers (record { pool = new key default_config; out = []; lost = 0 }) first_lease
first_history = next (next here waits) (checks_out (some (conn 1 [])) 10 granted first_acquire)

Reach-Accounts_example :
    Accounts default_config
      (first_lease.lost)
      (length (first_lease.out))
      (length (first_lease.out))
      (first_lease.pool)
Reach-Accounts_example = Reach-Accounts answers key default_config first_history

sanitize_ready :
    sanitize answers ready_next default_hygiene
    ≡ some (record (conn 3 []) { outgoing = Wire.sync ∷ [] })
unfolding sanitize close_cycle drain_until_ready quiesce send rollback_if_open
sanitize_ready = refl

sanitize-IsClean_example :
    (before : Conn) × (before.status ≡ Wire.idle)
    × (answers "DISCARD ALL" before ≡ answered (record (conn 3 []) { outgoing = Wire.sync ∷ [] }))
sanitize-IsClean_example =
    sanitize-IsClean answers (λ c c' e. ground arith) ready_next default_hygiene sanitize_ready

-- The connection that answers late: it is asked to cancel, and sent a Sync.
abbrev synced : Conn
synced = record (conn 4 []) { cancels = 1; outgoing = Wire.sync ∷ [] }

abbrev named_web : Conn
named_web = record (conn 5 []) { parameters = ("application_name", "web") ∷ [] }

abbrev web_lease : UpstreamLease
web_lease = record { conn = named_web; created_at = 0 }

checkout_granted-reuses_example :
    let r = checkout_granted none late used_pool in
    (r.0 ≡ some (record { conn = conn late []; created_at = late })) × (r.1.idle ≡ [])
unfolding new
checkout_granted-reuses_example =
    checkout_granted-reuses none late used_pool (parked 5 ∷ []) (parked late) [] (conn late []) refl
      (inl (omega arith), tt) (omega arith, inl (omega arith, refl))

abbrev kept_late : List Parked → List Parked
kept_late = retained default_config late

sweep-judges_example :
    let stays =
      leb (late - (parked 5).idle_since) used_pool.config.idle_timeout
      && leb (late - (parked 5).created_at) used_pool.config.max_lifetime in
    (sweep late used_pool).idle
    ≡ kept_late [] ++ ((if stays then parked 5 ∷ [] else []) ++ kept_late (parked late ∷ []))
unfolding new
sweep-judges_example = sweep-judges late used_pool [] (parked 5) (parked late ∷ []) refl

checkin_detached-discards_example :
    let p' = checkin_detached answers 20 web_lease true pool in
    (p'.idle ≡ pool.idle)
    ⊎ ((c : Conn) × (answers "DISCARD ALL" named_web ≡ answered c)
        × (p'.idle ≡ record { conn = c; idle_since = 20; created_at = 0 } ∷ pool.idle))
checkin_detached-discards_example = checkin_detached-discards answers 20 web_lease pool
