-- ===== src/Pool/Reuse.antt =====
-- Which connection a checkout hands out, and what a sweep and the registry keep
-- (crates/pgferry/src/pool.rs).
use pgferry.Pool.Sanitize.{probe}
use pgferry.Prelude.{
  ℕ, ◌-◌, ◌≤◌, ◌<◌, ◌⊎◌, inl, inr, ◌≡◌, Option, none, some, List, [], ◌∷◌, ◌++◌, arith,
}
use pgferry.Conn.{Conn}
use pgferry.Pool.{Pool, PoolConfig, Parked}
use pgferry.Pool.Checkout.{
  judge, Verdict, expired, failed_probe, fresh, probed_alive, pop_loop, connect_new,
  checkout_granted, note_evicted, note_dropped, note_probed,
}
use mathlib.Core.Option

-- The connection that a verdict lets through.
abbrev pub usable : Verdict → Option Conn
usable expired = none
usable failed_probe = none
usable (fresh c) = some c
usable (probed_alive c) = some c

-- A parked connection that a checkout may hand out, as `c`: it is within its lifetime, and it is not
-- stale, or its probe answers.
abbrev pub Serves : PoolConfig → ℕ → Parked → Conn → Type 0
Serves config now k c =
    (now - k.created_at ≤ config.max_lifetime)
    × (((now - k.idle_since ≤ config.stale_after) × (k.conn ≡ c))
        ⊎ ((config.stale_after < now - k.idle_since) × (probe k.conn ≡ some c)))

-- One that is too old, or stale without an answer to its probe.
abbrev pub IsSpent : PoolConfig → ℕ → Parked → Type 0
IsSpent config now k =
    (config.max_lifetime < now - k.created_at)
    ⊎ ((config.stale_after < now - k.idle_since) × (probe k.conn ≡ none))

abbrev pub AllSpent : PoolConfig → ℕ → List Parked → Type 0
AllSpent config now [] = Unit {0}
AllSpent config now (k ∷ ks) = IsSpent config now k × AllSpent config now ks

judge-Serves :
    (config : PoolConfig) (now : ℕ) (k : Parked) {c : Conn}
    → Serves config now k c
    → usable (judge config now k) ≡ some c
unfolding judge
judge-Serves config now k (young, inl (recent, e)) = ground (arith, e)
judge-Serves config now k (young, inr (stale, e)) = rw e (ground arith)

judge-IsSpent :
    (config : PoolConfig) (now : ℕ) (k : Parked)
    → IsSpent config now k
    → usable (judge config now k) ≡ none
unfolding judge
judge-IsSpent config now k (inl old) = ground arith
judge-IsSpent config now k (inr (stale, e)) = rw e (ground arith)

abbrev Unusable : PoolConfig → ℕ → List Parked → Type 0
Unusable config now [] = Unit {0}
Unusable config now (k ∷ ks) = (usable (judge config now k) ≡ none) × Unusable config now ks

AllSpent-Unusable :
    (config : PoolConfig) (now : ℕ) (ks : List Parked)
    → AllSpent config now ks
    → Unusable config now ks
AllSpent-Unusable config now [] u = tt
AllSpent-Unusable config now (k ∷ ks) (s, u) =
    (judge-IsSpent config now k s, AllSpent-Unusable config now ks u)

pop_loop-first :
    (connected : Option Conn) (now : ℕ) (above : List Parked) (k : Parked) (below : List Parked)
    (c : Conn) (p : Pool)
    → Unusable p.config now above
    → usable (judge p.config now k) ≡ some c
    → let r = pop_loop connected now (above ++ k ∷ below) p in
      (r.0 ≡ some (record { conn = c; created_at = k.created_at })) × (r.1.idle ≡ below)
unfolding pop_loop
pop_loop-first connected now [] k below c p u e = ground arith
pop_loop-first connected now (a ∷ above) k below c p u e = ground (
  arith,
  pop_loop-first connected now above k below c (note_evicted p) u.1 e,
  pop_loop-first connected now above k below c (note_dropped (note_probed p)) u.1 e,
)

pop_loop-connects :
    (connected : Option Conn) (now : ℕ) (ks : List Parked) (p : Pool)
    → Unusable p.config now ks
    → let r = pop_loop connected now ks p in
      (r.0 ≡ Option.map (λ c. record { conn = c; created_at = now }) connected) × (r.1.idle ≡ [])
unfolding pop_loop connect_new
pop_loop-connects none now [] p u = ground arith
pop_loop-connects (some c) now [] p u = ground arith
pop_loop-connects connected now (a ∷ ks) p u = ground (
  arith,
  pop_loop-connects connected now ks (note_evicted p) u.1,
  pop_loop-connects connected now ks (note_dropped (note_probed p)) u.1,
)

-- A checkout that holds its permit hands out the topmost parked connection that is within
-- `max_lifetime` and, if it was idle for longer than `stale_after`, answers its probe, as the probe
-- left it; those above it leave the stack, those below it stay.
pub checkout_granted-reuses :
    (connected : Option Conn) (now : ℕ) (p : Pool) (above : List Parked) (k : Parked)
    (below : List Parked) (c : Conn)
    → p.idle ≡ above ++ k ∷ below
    → AllSpent p.config now above
    → Serves p.config now k c
    → let r = checkout_granted connected now p in
      (r.0 ≡ some (record { conn = c; created_at = k.created_at })) × (r.1.idle ≡ below)
unfolding checkout_granted
checkout_granted-reuses connected now p above k below c e u v = simp e (
    pop_loop-first connected now above k below c p (AllSpent-Unusable p.config now above u)
      (judge-Serves p.config now k v))

-- Only when no parked connection is usable does a checkout connect: it hands out the new
-- connection, or fails as the connect does, and no parked connection is left.
checkout_granted-connects :
    (connected : Option Conn) (now : ℕ) (p : Pool)
    → AllSpent p.config now p.idle
    → let r = checkout_granted connected now p in
      (r.0 ≡ Option.map (λ c. record { conn = c; created_at = now }) connected) × (r.1.idle ≡ [])
unfolding checkout_granted
checkout_granted-connects connected now p u =
    pop_loop-connects connected now p.idle p (AllSpent-Unusable p.config now p.idle u)
