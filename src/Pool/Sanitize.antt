-- ===== src/Pool/Sanitize.antt =====
-- Connection hygiene of crates/pgferry/src/pool.rs: `probe`, `settle`, `close_cycle` and
-- `sanitize`. pgwire's `simple_query` is a parameter.
use pgferry.Prelude.{String, Option, none, some, Bool, true, false, if◌then◌else◌}
use pgferry.Wire.{is_idle, sync, copy_fail}
use pgferry.Conn.{Conn, send, cancel, Drained, ready, lost, silent, drain_until_ready}
use pgferry.Pool.{Hygiene, CopyCleanup}

-- What `PgWireClient::simple_query` comes to: it consumes its own responses, or fails, or outlasts
-- the time limit set on it.
pub data Answer : Type 0 where
  answered : Conn → Answer
  refused timed_out : Answer

abbrev pub SimpleQuery : Type 0
SimpleQuery = String → Conn → Answer

abbrev pub conn_of : Answer → Option Conn
conn_of (answered c) = some c
conn_of refused = none
conn_of timed_out = none

infixl 5 ◌>>=◌
abbrev pub ◌>>=◌ {ℓ κ} : {A : Type ℓ} {B : Type κ} → Option A → (A → Option B) → Option B
none >>= f = none
some a >>= f = f a

-- A read loop under the time limit of the whole operation.
abbrev pub completed : Drained → Option Conn
completed (ready c) = some c
completed lost = none
completed (silent c) = none

-- Also `probe`, but for its limit: a bare Sync must be answered with ReadyForQuery.
unfoldable pub close_cycle : Conn → Option Conn
close_cycle c = do c' ← send sync c; completed (drain_until_ready false c')

unfoldable pub probe : Conn → Option Conn
probe c = do c' ← send sync c; completed (drain_until_ready false c')

unfoldable pub after_cancel : Drained → Option Conn
after_cancel (ready c) = some c
after_cancel lost = none
after_cancel (silent c) = close_cycle c

-- What the cancel on a side connection does to the server shows in what is read afterwards.
unfoldable pub settle : Bool → Bool → Conn → Option Conn
unfolding after_cancel
settle send_copy_fail awaiting c = do
  c' ← if send_copy_fail then send copy_fail c else some c
  after_cancel (drain_until_ready true (if awaiting then cancel c' else c'))

unfoldable pub quiesce : Conn → Hygiene → Option Conn
quiesce c hygiene = elim hygiene.copy [
  | CopyCleanup.client_owes_copy ↦ settle true hygiene.awaiting_response c
  | _ ↦ if hygiene.awaiting_response then settle false true c else close_cycle c
]

module _ (simple_query : SimpleQuery) where
  unfoldable pub rollback_if_open : Conn → Option Conn
  rollback_if_open c = if is_idle c.status then some c else conn_of (simple_query "ROLLBACK" c)

  unfoldable pub sanitize : Conn → Hygiene → Option Conn
  sanitize c hygiene = do
    c₁ ← quiesce c hygiene
    c₂ ← rollback_if_open c₁
    conn_of (simple_query "DISCARD ALL" c₂)
