-- ===== src/Pool/Checkout.antt =====
-- `Pool::checkout` and `finish_checkout` of crates/pgferry/src/pool.rs: wait for a permit, then take
-- the top of the idle stack, probing what is stale, else connect. What the connect factory returns
-- is an argument; between two awaits of one checkout no other task touches the pool.
use Prim.Native.Nat.{zero, suc}
use pgferry.Prelude.{ℕ, ◌-◌, Option, none, some, List, [], ◌∷◌, ltb, if◌then◌else◌}
use pgferry.Conn.{Conn}
use pgferry.Pool.Sanitize.{probe}
use pgferry.Pool.{Pool, PoolConfig, Parked, UpstreamLease, fetch_add, fetch_sub_one}

-- `waiting.fetch_add(1)`, before the acquire future is first polled.
unfoldable pub start_waiting : Pool → Pool
start_waiting p = record p {
  metrics = record (p.metrics) { waiting = fetch_add p.metrics.waiting 1 };
}

abbrev stop_waiting : Pool → ℕ → Pool
stop_waiting p n = record p {
  permits = n;
  metrics = record (p.metrics) { waiting = fetch_sub_one p.metrics.waiting };
}

take_permit : ℕ → Pool → Option Pool
take_permit zero p = none
take_permit (suc n) p = some (stop_waiting p n)

-- `none` while no permit is free: the caller goes on waiting.
unfoldable pub acquire : Pool → Option Pool
unfolding take_permit
acquire p = take_permit p.permits p

-- What the loop does with the connection it popped.
pub data Verdict : Type 0 where
  expired failed_probe : Verdict
  fresh probed_alive : Conn → Verdict

abbrev verdict_of_probe : Option Conn → Verdict
verdict_of_probe none = failed_probe
verdict_of_probe (some c) = probed_alive c

unfoldable pub judge : PoolConfig → ℕ → Parked → Verdict
judge config now k =
    if ltb config.max_lifetime (now - k.created_at)
    then expired
    else if ltb config.stale_after (now - k.idle_since)
    then verdict_of_probe (probe k.conn)
    else fresh k.conn

unfoldable pub finish_checkout : Conn → ℕ → Pool → UpstreamLease × Pool
finish_checkout c created_at p =
    let m = p.metrics in
    (
      record { conn = c; created_at = created_at },
      record p {
        metrics = record m {
          checkouts = fetch_add m.checkouts 1;
          reused = fetch_add m.reused 1;
          active = fetch_add m.active 1;
        };
      },
    )

abbrev pub note_evicted : Pool → Pool
note_evicted p = record p {
  metrics = record (p.metrics) { evicted = fetch_add p.metrics.evicted 1 };
}

abbrev pub note_probed : Pool → Pool
note_probed p = record p { metrics = record (p.metrics) { probed = fetch_add p.metrics.probed 1 } }

abbrev pub note_dropped : Pool → Pool
note_dropped p = record p {
  metrics = record (p.metrics) { dropped = fetch_add p.metrics.dropped 1 };
}

abbrev pub note_created : Pool → Pool
note_created p = record p {
  metrics = record (p.metrics) { created = fetch_add p.metrics.created 1 };
}

-- No idle connection is left: connect a new one. A failed connect gives the permit back.
unfoldable pub connect_new : Option Conn → ℕ → Pool → Option UpstreamLease × Pool
unfolding finish_checkout
connect_new none now p = let p' = note_dropped p in (none, record p' { permits = suc p.permits })
connect_new (some c) now p =
    let (lease, p') = finish_checkout c now (note_created p) in (some lease, p')

-- The `while let Some(parked) = self.pop_idle()` loop, over the idle stack from its top.
unfoldable pub pop_loop : Option Conn → ℕ → List Parked → Pool → Option UpstreamLease × Pool
unfolding judge finish_checkout connect_new
pop_loop connected now [] p = connect_new connected now (record p { idle = [] })
pop_loop connected now (k ∷ rest) p = elim (judge p.config now k) [
  | expired ↦ pop_loop connected now rest (note_evicted p)
  | failed_probe ↦ pop_loop connected now rest (note_dropped (note_probed p))
  | fresh c ↦
      let (lease, p') = finish_checkout c k.created_at (record p { idle = rest }) in
      (some lease, p')
  | probed_alive c ↦
      let (lease, p') = finish_checkout c k.created_at (note_probed (record p { idle = rest })) in
      (some lease, p')
]

-- From the granted permit on.
unfoldable pub checkout_granted : Option Conn → ℕ → Pool → Option UpstreamLease × Pool
unfolding pop_loop
checkout_granted connected now p = pop_loop connected now p.idle p
