-- ===== src/Pool/Bounds.antt =====
-- The accounts of a pool of crates/pgferry/src/pool.rs over any history of checkouts, checkins,
-- detaches, destroyed leases and sweeps: permits, the number of connections, the `active` gauge.
use pgferry.Prelude.{
  ℕ, suc, ◌+◌, ◌%◌, ◌^◌, ◌≤◌, ◌≡◌, ◌⊎◌, refl, Option, none, some, List, [], ◌∷◌, Bool, arith,
  length, inl, inr,
}
use pgferry.Conn.{Conn}
use pgferry.Pool.{Pool, PoolKey, PoolConfig, Parked, UpstreamLease, Hygiene, capacity, new}
use pgferry.Pool.Sanitize.{SimpleQuery}
use pgferry.Pool.Checkout.{
  start_waiting, acquire, judge, Verdict, expired, failed_probe, fresh, probed_alive, pop_loop,
  connect_new, checkout_granted,
}
use pgferry.Pool.Checkin.{checkin, checkin_detached, destroy, drop_lease, park}
use pgferry.Pool.Manager.{sweep, retained}

-- `out` leases are outstanding, `lost` ones were dropped past the pool, `held` permits are taken (one more while a checkout is at work).
pub record Accounts (config : PoolConfig) (lost held out : ℕ) (p : Pool) : Type 0 where
  pub configured : p.config ≡ config
  pub permits_taken : p.permits + held ≡ capacity config
  pub connections : length p.idle + out ≤ capacity config
  pub active_counts : p.metrics.active ≡ (lost + out) % 2 ^ 64

pub new-Accounts : (key : PoolKey) (config : PoolConfig) → Accounts config 0 0 0 (new key config)
unfolding new
new-Accounts key config = record {
  configured = refl;
  permits_taken = omega arith;
  connections = omega arith;
  active_counts = refl;
}

pub start_waiting-Accounts :
    {config : PoolConfig} {lost held out : ℕ} {p : Pool}
    → Accounts config lost held out p
    → Accounts config lost held out (start_waiting p)
unfolding start_waiting
start_waiting-Accounts a = ground arith

pub acquire-Accounts :
    {config : PoolConfig} {lost held out : ℕ} {p q : Pool}
    → Accounts config lost held out p
    → acquire p ≡ some q
    → Accounts config lost (suc held) out q
unfolding acquire
acquire-Accounts a e = ground arith

pub drop_lease-Accounts :
    {config : PoolConfig} {lost out : ℕ} {p : Pool}
    → Accounts config lost (suc out) (suc out) p
    → Accounts config (suc lost) out out (drop_lease p)
unfolding drop_lease
drop_lease-Accounts a = ground arith

-- What a checkout that holds its permit comes to: a lease more, or the permit given back.
abbrev pub Settled : PoolConfig → ℕ → ℕ → Option UpstreamLease × Pool → Type 0
Settled config lost out (none, p) = Accounts config lost out out p
Settled config lost out (some l, p) = Accounts config lost (suc out) (suc out) p

connect_new-Settled :
    {config : PoolConfig} {lost out : ℕ} (connected : Option Conn) (now : ℕ) {p : Pool}
    → p.idle ≡ []
    → Accounts config lost (suc out) out p
    → Settled config lost out (connect_new connected now p)
unfolding connect_new
connect_new-Settled none now e a = ground arith
connect_new-Settled (some c) now e a = ground arith

Verdict-cases :
    (v : Verdict)
    → (v ≡ expired)
      ⊎ (v ≡ failed_probe)
      ⊎ ((c : Conn) × (v ≡ fresh c))
      ⊎ ((c : Conn) × (v ≡ probed_alive c))
Verdict-cases expired = inl refl
Verdict-cases failed_probe = inr (inl refl)
Verdict-cases (fresh c) = inr (inr (inl (c, refl)))
Verdict-cases (probed_alive c) = inr (inr (inr (c, refl)))

pop_loop-Settled :
    {config : PoolConfig} {lost out : ℕ} (connected : Option Conn) (now : ℕ) (ks : List Parked)
    (p : Pool)
    → length ks + out ≤ capacity config
    → Accounts config lost (suc out) out (record p { idle = [] })
    → Settled config lost out (pop_loop connected now ks p)
unfolding pop_loop
pop_loop-Settled connected now [] p h a = connect_new-Settled connected now refl a
pop_loop-Settled connected now (k ∷ rest) p h a = elim (Verdict-cases (judge p.config now k)) [
  | inl e ↦ rw (e, pop_loop) (pop_loop-Settled connected now rest _ (omega arith) (ground arith))
  | inr (inl e) ↦
      rw (e, pop_loop) (pop_loop-Settled connected now rest _ (omega arith) (ground arith))
  | inr (inr (inl (c, e))) ↦ rw (e, pop_loop) (ground arith)
  | inr (inr (inr (c, e))) ↦ rw (e, pop_loop) (ground arith)
]

pub checkout_granted-Settled :
    {config : PoolConfig} {lost out : ℕ} (connected : Option Conn) (now : ℕ) (p : Pool)
    → Accounts config lost (suc out) out p
    → Settled config lost out (checkout_granted connected now p)
unfolding checkout_granted
checkout_granted-Settled connected now p a =
    pop_loop-Settled connected now p.idle p a.connections (ground arith)

park-Accounts :
    {config : PoolConfig} {lost out : ℕ} (now created_at : ℕ) (c : Conn) (p : Pool)
    → Accounts config lost out out p
    → length p.idle + suc out ≤ capacity config
    → Accounts config lost out out (park now created_at c p)
unfolding park
park-Accounts now created_at c p a h = ground arith

pub destroy-Accounts :
    {config : PoolConfig} {lost out : ℕ} (l : UpstreamLease) (p : Pool)
    → Accounts config lost (suc out) (suc out) p
    → Accounts config lost out out (destroy l p)
unfolding destroy
destroy-Accounts l p a = ground arith

length-retained :
    (config : PoolConfig) (now : ℕ) (ks : List Parked) → length (retained config now ks) ≤ length ks
unfolding retained
length-retained config now [] = omega arith
length-retained config now (k ∷ ks) = ground (arith, length-retained config now ks)

pub sweep-Accounts :
    {config : PoolConfig} {lost out : ℕ} (now : ℕ) (p : Pool)
    → Accounts config lost out out p
    → Accounts config lost out out (sweep now p)
unfolding sweep
sweep-Accounts now p a = ground (arith, length-retained p.config now p.idle)

module _ (simple_query : SimpleQuery) where
  pub checkin-Accounts :
      {config : PoolConfig} {lost out : ℕ} (now : ℕ) (l : UpstreamLease) (h : Hygiene) (p : Pool)
      → Accounts config lost (suc out) (suc out) p
      → Accounts config lost out out (checkin simple_query now l h p)
  unfolding checkin park
  checkin-Accounts now l h p a = ground arith

  pub checkin_detached-Accounts :
      {config : PoolConfig} {lost out : ℕ} (now : ℕ) (l : UpstreamLease) (dirty : Bool) (p : Pool)
      → Accounts config lost (suc out) (suc out) p
      → Accounts config lost out out (checkin_detached simple_query now l dirty p)
  unfolding checkin_detached park
  checkin_detached-Accounts now l dirty p a = ground arith
