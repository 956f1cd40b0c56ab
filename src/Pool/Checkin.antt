-- ===== src/Pool/Checkin.antt =====
-- Returning a lease (crates/pgferry/src/pool.rs): `checkin`, `checkin_detached`, `destroy`, and
-- `baseline_params`. The lease's permit goes back to the pool in each.
use pgferry.Prelude.{
  ℕ, suc, ◌-◌, String, Option, none, some, List, ◌∷◌, Bool, true, false, ltb, if◌then◌else◌,
}
use pgferry.Conn.{Conn}
use pgferry.Pool.Sanitize.{SimpleQuery, conn_of, sanitize}
use pgferry.Pool.Checkout.{checkout_granted, acquire, start_waiting}
use pgferry.Pool.{Pool, UpstreamLease, Hygiene, default_hygiene, fetch_add, fetch_sub_one}

-- The lease's last moment: `active` falls, and its drop frees the permit.
abbrev pub let_go : Pool → Pool
let_go p = record p {
  permits = suc p.permits;
  metrics = record (p.metrics) { active = fetch_sub_one p.metrics.active };
}

abbrev count_dropped : Pool → Pool
count_dropped p = record p {
  metrics = record (p.metrics) { dropped = fetch_add p.metrics.dropped 1 };
}

-- Push the connection on the idle stack, or close it when it is past `max_lifetime`.
unfoldable pub park : ℕ → ℕ → Conn → Pool → Pool
park now created_at c p =
    let m = p.metrics in
    if ltb p.config.max_lifetime (now - created_at)
    then record p { metrics = record m { evicted = fetch_add m.evicted 1 } }
    else record p {
      idle = record { conn = c; idle_since = now; created_at = created_at } ∷ p.idle;
      metrics = record m { checked_in = fetch_add m.checked_in 1 };
    }

park_sanitized : ℕ → ℕ → Option Conn → Pool → Pool
unfolding park
park_sanitized now created_at none p = count_dropped p
park_sanitized now created_at (some c) p = park now created_at c p

unfoldable pub park_detached : ℕ → ℕ → Option Conn → Pool → Pool
unfolding park
park_detached now created_at none p = count_dropped p
park_detached now created_at (some c) p =
    park now created_at c (record p { baseline_params = some c.parameters })

unfoldable pub destroy : UpstreamLease → Pool → Pool
destroy lease p = count_dropped (let_go p)

-- What becomes of a pool when a lease is dropped without any of these: the permit is a field of it.
unfoldable pub drop_lease : Pool → Pool
drop_lease p = record p { permits = suc p.permits }

module _ (simple_query : SimpleQuery) where
  unfoldable pub checkin : ℕ → UpstreamLease → Hygiene → Pool → Pool
  unfolding park_sanitized
  checkin now lease hygiene p =
      park_sanitized now lease.created_at (sanitize simple_query lease.conn hygiene) (let_go p)

  unfoldable pub discard_if : Bool → Conn → Option Conn
  discard_if true c = conn_of (simple_query "DISCARD ALL" c)
  discard_if false c = some c

  unfoldable pub checkin_detached : ℕ → UpstreamLease → Bool → Pool → Pool
  unfolding park_detached discard_if
  checkin_detached now lease dirty p =
      park_detached now lease.created_at (discard_if dirty lease.conn) (let_go p)

  -- `baseline_params` of a pool that holds a permit for the probe checkout of a cold pool.
  unfoldable pub snapshot_of :
      ℕ → Option UpstreamLease × Pool → Option (List (String × String)) × Pool
  unfolding checkin
  snapshot_of now (none, p) = (none, p)
  snapshot_of now (some l, p) = (some l.conn.parameters, checkin now l default_hygiene p)

  unfoldable pub probe_baseline : Option Conn → ℕ → Pool → Option (List (String × String)) × Pool
  unfolding snapshot_of
  probe_baseline connected now p = snapshot_of now (checkout_granted connected now p)

  -- The pool of a key that no session has used yet is asked for one connection; `none` while that
  -- checkout waits for a permit.
  unfoldable pub baseline_params :
      Option Conn → ℕ → Pool → Option (Option (List (String × String)) × Pool)
  unfolding probe_baseline
  baseline_params connected now p = elim p.baseline_params [
    | some params ↦ some (some params, p)
    | none ↦ elim (acquire (start_waiting p)) [
      | none ↦ none
      | some p' ↦ some (probe_baseline connected now p')
    ]
  ]
