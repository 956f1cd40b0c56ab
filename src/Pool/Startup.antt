-- ===== src/Pool/Startup.antt =====
-- What `sync_startup_parameters` of crates/pgferry/src/pool.rs leaves, and what a detach without a
-- reset then parks.
use pgferry.Prelude.{
  ℕ, ◌-◌, String, ◌≡◌, refl, inl, inr, Option, none, some, ◌∷◌, false, true, ◌⊎◌, Bool-cases, ltb,
  lookup, str_eq,
}
use pgferry.Conn.{Conn}
use pgferry.Pool.{Pool, UpstreamLease}
use pgferry.Pool.Sanitize.{SimpleQuery, Answer, answered, refused, timed_out, conn_of}
use pgferry.Pool.Literals.{read_literal}
use Prim.Native.String.{◌++◌}
use pgferry.Pool.Parameters.{set_statement, value_or_empty}
use pgferry.Pool.Checkin.{checkin_detached, discard_if, park, park_detached, let_go}

-- pgwire's cache after a `SET` of one parameter still holds the values of the others.
abbrev pub KeepsOthers : SimpleQuery → Type 0
KeepsOthers q =
    (name value other : String) (c d : Conn)
    → q (set_statement name value) c ≡ answered d
    → str_eq name other ≡ false
    → lookup other d.parameters ≡ lookup other c.parameters

-- The connection reports what the client asked for, where it asked.
abbrev pub Agrees : String → Option String → Conn → Type 0
Agrees name none c = Unit {0}
Agrees name (some v) c = value_or_empty (lookup name c.parameters) ≡ v

-- `SET name = '` and what follows.
abbrev pub spelt_set : String → String → String
spelt_set name body = "SET " ++ name ++ " = '" ++ body

-- The server answered a `SET` of the parameter whose literal reads as the value.
abbrev pub Asked : SimpleQuery → String → String → Type 0
Asked q name value =
    (before : Conn) × (after : Conn) × (body : String) × (q (spelt_set name body) before
      ≡ answered after)
    × (read_literal false body ≡ some value)

-- `c` held the value that the client asked for, or the server was asked to set it.
abbrev pub Told : SimpleQuery → String → Option String → Conn → Type 0
Told q name none c = Unit {0}
Told q name (some v) c = (value_or_empty (lookup name c.parameters) ≡ v) ⊎ Asked q name v

-- What a detach of a connection that the session made dirty does to the idle stack: either nothing
-- is parked, or the connection that is parked is the server's answer to a `DISCARD ALL`.
pub checkin_detached-discards :
    (q : SimpleQuery) (now : ℕ) (l : UpstreamLease) (p : Pool)
    → let p' = checkin_detached q now l true p in
      (p'.idle ≡ p.idle)
      ⊎ ((c : Conn) × (q "DISCARD ALL" l.conn ≡ answered c)
          × (p'.idle ≡ record { conn = c; idle_since = now; created_at = l.created_at } ∷ p.idle))
unfolding checkin_detached discard_if park_detached park
checkin_detached-discards q now l p = go (q "DISCARD ALL" l.conn) refl
  where
    go :
        (a : Answer)
        → q "DISCARD ALL" l.conn ≡ a
        → let p' = park_detached now l.created_at (conn_of a) (let_go p) in
          (p'.idle ≡ p.idle)
          ⊎ ((c : Conn) × (q "DISCARD ALL" l.conn ≡ answered c)
              × (p'.idle
                  ≡ record { conn = c; idle_since = now; created_at = l.created_at } ∷ p.idle))
    go (answered c) e = elim (Bool-cases (ltb p.config.max_lifetime (now - l.created_at))) [
      | inl old ↦ inl (rw old refl)
      | inr young ↦ inr (c, e, rw young refl)
    ]
    go refused e = inl refl
    go timed_out e = inl refl
