-- ===== src/Pool/Histories.antt =====
-- Any history of a pool of crates/pgferry/src/pool.rs that several sessions and the sweeper share.
use pgferry.Prelude.{
  ℕ, suc, ◌≡◌, ap, subst, Option, none, some, List, [], ◌∷◌, ◌++◌, Bool, arith, length,
  length-append,
}
use pgferry.Conn.{Conn}
use pgferry.Pool.{Pool, PoolKey, PoolConfig, UpstreamLease, Hygiene, default_hygiene, new}
use pgferry.Pool.Sanitize.{SimpleQuery}
use pgferry.Pool.Checkout.{start_waiting, acquire, checkout_granted}
use pgferry.Pool.Checkin.{
  checkin, checkin_detached, destroy, drop_lease, snapshot_of, probe_baseline,
}
use pgferry.Pool.Manager.{sweep}
use pgferry.Pool.Bounds.{
  Accounts, Settled, new-Accounts, start_waiting-Accounts, acquire-Accounts,
  checkout_granted-Settled, destroy-Accounts, drop_lease-Accounts, sweep-Accounts, checkin-Accounts,
  checkin_detached-Accounts,
}

-- A pool, the leases that are out, and how many were dropped without being given back.
pub record World : Type 0 where
  pub pool : Pool
  pub out : List UpstreamLease
  pub lost : ℕ

abbrev pub lease_out : Option UpstreamLease × Pool → List UpstreamLease → ℕ → World
lease_out (none, p) ls n = record { pool = p; out = ls; lost = n }
lease_out (some l, p) ls n = record { pool = p; out = l ∷ ls; lost = n }

-- Any session may start to wait, be granted a permit, or give back a lease in any of the three
-- ways, or lose it: a leg of a scatter that fails drops its lease, and so does a cancelled leg. The
-- sweeper may run at any time. A client that leaves while it waits changes nothing. Each operation is
-- one step, its awaits included.
pub data Step (simple_query : SimpleQuery) (w : World) : World → Type 0 where
  waits : Step simple_query w (record w { pool = start_waiting w.pool })
  checks_out :
      (connected : Option Conn) (now : ℕ) (q : Pool)
      → acquire w.pool ≡ some q
      → Step simple_query w (lease_out (checkout_granted connected now q) w.out w.lost)
  probes_baseline :
      (connected : Option Conn) (now : ℕ) (q : Pool)
      → acquire w.pool ≡ some q
      → Step simple_query w (record w { pool = (probe_baseline simple_query connected now q).1 })
  checks_in :
      (now : ℕ) (h : Hygiene) (ls : List UpstreamLease) (l : UpstreamLease)
      (rs : List UpstreamLease)
      → w.out ≡ ls ++ l ∷ rs
      → Step simple_query w
          (record w { pool = checkin simple_query now l h w.pool; out = ls ++ rs })
  detaches :
      (now : ℕ) (dirty : Bool) (ls : List UpstreamLease) (l : UpstreamLease)
      (rs : List UpstreamLease)
      → w.out ≡ ls ++ l ∷ rs
      → Step simple_query w
          (record w { pool = checkin_detached simple_query now l dirty w.pool; out = ls ++ rs })
  destroys :
      (ls : List UpstreamLease) (l : UpstreamLease) (rs : List UpstreamLease)
      → w.out ≡ ls ++ l ∷ rs
      → Step simple_query w (record w { pool = destroy l w.pool; out = ls ++ rs })
  drops :
      (ls : List UpstreamLease) (l : UpstreamLease) (rs : List UpstreamLease)
      → w.out ≡ ls ++ l ∷ rs
      → Step simple_query w (record { pool = drop_lease w.pool; out = ls ++ rs; lost = suc w.lost })
  sweeps : (now : ℕ) → Step simple_query w (record w { pool = sweep now w.pool })

pub data Reach (simple_query : SimpleQuery) (w : World) : World → Type 0 where
  here : Reach simple_query w w
  next : {u v : World} → Reach simple_query w u → Step simple_query u v → Reach simple_query w v

abbrev pub IsSound : PoolConfig → World → Type 0
IsSound config w = Accounts config w.lost (length w.out) (length w.out) w.pool

lease_out-IsSound :
    {config : PoolConfig} (r : Option UpstreamLease × Pool) (ls : List UpstreamLease) (n : ℕ)
    → Settled config n (length ls) r
    → IsSound config (lease_out r ls n)
lease_out-IsSound (none, p) ls n s = s
lease_out-IsSound (some l, p) ls n s = s

length-split :
    (ls : List UpstreamLease) (l : UpstreamLease) (rs : List UpstreamLease)
    {out : List UpstreamLease}
    → out ≡ ls ++ l ∷ rs
    → length out ≡ suc (length (ls ++ rs))
length-split ls l rs e = omega (arith, ap length e, length-append ls (l ∷ rs), length-append ls rs)

split-Accounts :
    {config : PoolConfig} (ls : List UpstreamLease) (l : UpstreamLease) (rs : List UpstreamLease)
    {w : World}
    → w.out ≡ ls ++ l ∷ rs
    → IsSound config w
    → Accounts config w.lost (suc (length (ls ++ rs))) (suc (length (ls ++ rs))) w.pool
split-Accounts {config} ls l rs {w} e a =
    subst (λ n. Accounts config w.lost n n w.pool) (length-split ls l rs e) a

module _ (simple_query : SimpleQuery) where
  snapshot_of-Accounts :
      {config : PoolConfig} {lost out : ℕ} (now : ℕ) (r : Option UpstreamLease × Pool)
      → Settled config lost out r
      → Accounts config lost out out (snapshot_of simple_query now r).1
  unfolding snapshot_of
  snapshot_of-Accounts now (none, p) s = s
  snapshot_of-Accounts now (some l, p) s = checkin-Accounts simple_query now l default_hygiene p s

  probe_baseline-Accounts :
      {config : PoolConfig} {lost out : ℕ} (connected : Option Conn) (now : ℕ) (p : Pool)
      → Accounts config lost (suc out) out p
      → Accounts config lost out out (probe_baseline simple_query connected now p).1
  unfolding probe_baseline
  probe_baseline-Accounts connected now p a =
      snapshot_of-Accounts now _ (checkout_granted-Settled connected now p a)

  pub Step-IsSound :
      {config : PoolConfig} {w v : World}
      → Step simple_query w v
      → IsSound config w
      → IsSound config v
  Step-IsSound waits a = start_waiting-Accounts a
  Step-IsSound {w = w} (checks_out connected now q e) a =
      lease_out-IsSound _ w.out w.lost
        (checkout_granted-Settled connected now q (acquire-Accounts a e))
  Step-IsSound (probes_baseline connected now q e) a =
      probe_baseline-Accounts connected now q (acquire-Accounts a e)
  Step-IsSound (checks_in now h ls l rs e) a =
      checkin-Accounts simple_query now l h _ (split-Accounts ls l rs e a)
  Step-IsSound (detaches now dirty ls l rs e) a =
      checkin_detached-Accounts simple_query now l dirty _ (split-Accounts ls l rs e a)
  Step-IsSound (destroys ls l rs e) a = destroy-Accounts l _ (split-Accounts ls l rs e a)
  Step-IsSound (drops ls l rs e) a = drop_lease-Accounts (split-Accounts ls l rs e a)
  Step-IsSound (sweeps now) a = sweep-Accounts now _ a

  pub Reach-IsSound :
      {config : PoolConfig} {w v : World}
      → Reach simple_query w v
      → IsSound config w
      → IsSound config v
  Reach-IsSound here a = a
  Reach-IsSound (next r s) a = Step-IsSound s (Reach-IsSound r a)

  -- After any history of a new pool, by any number of sessions, each of its operations done as a whole:
  -- free permits and outstanding leases add up to the capacity (`max_size`, or 1 where that is 0),
  -- parked and outstanding connections together never exceed it, and the `active` gauge counts the
  -- outstanding leases and those that were ever dropped without being given back (modulo 2^64).
  pub Reach-Accounts :
      (key : PoolKey) (config : PoolConfig) {w : World}
      → Reach simple_query (record { pool = new key config; out = []; lost = 0 }) w
      → Accounts config w.lost (length w.out) (length w.out) w.pool
  Reach-Accounts key config r = Reach-IsSound r (new-Accounts key config)
