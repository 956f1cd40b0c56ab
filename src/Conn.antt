-- ===== src/Conn.antt =====
-- An upstream connection as the proxy sees it: pgwire's `PgWireClient` with the state that it caches
-- (transaction status, server parameters), what was written to it, and what is still to be read
-- from it. The loops that read it are those of crates/pgferry/src/pool.rs.
use pgferry.Prelude.{
  ℕ, ◌+◌, String, Option, none, some, List, [], ◌∷◌, ◌++◌, Bool, true, false, if◌then◌else◌, insert,
}
use pgferry.Wire.{
  TransactionStatus, FrontendMessage, BackendMessage, ready_for_query, parameter_status,
}

-- What a read yields: a message, a decode error, or silence longer than the 250 ms that `settle`
-- waits (`pause`), or longer than the limit of the whole operation (`hang`). The end of the list is
-- the end of the stream.
pub data Item : Type 0 where
  received : BackendMessage → Item
  broken pause hang : Item

pub record Conn : Type 0 where
  pub pid : ℕ
  pub status : TransactionStatus
  pub parameters : List (String × String)
  pub writable : Bool
  -- cancel requests sent for it on side connections
  pub cancels : ℕ
  pub outgoing : List FrontendMessage
  pub incoming : List Item

-- A write fails on a dead socket.
unfoldable pub send : FrontendMessage → Conn → Option Conn
send m c = if c.writable then some (record c { outgoing = c.outgoing ++ m ∷ [] }) else none

unfoldable pub set_parameter_cache : String → String → Conn → Conn
set_parameter_cache name value c = record c { parameters = insert name value c.parameters }

unfoldable pub cancel : Conn → Conn
cancel c = record c { cancels = c.cancels + 1 }

-- How a read loop ended: `ready` at a ReadyForQuery, `lost` at an error or the end of the stream,
-- `silent` at the time limit.
pub data Drained : Type 0 where
  ready : Conn → Drained
  lost : Drained
  silent : Conn → Drained

-- `drain_until_ready` over the items to come; `short` says that the 250 ms limit is set on it.
unfoldable pub drain_items : Bool → List Item → Conn → Drained
drain_items short [] c = lost
drain_items short (received (ready_for_query s) ∷ rest) c =
    ready (record c { status = s; incoming = rest })
drain_items short (received (parameter_status n v) ∷ rest) c =
    drain_items short rest (record c { parameters = insert n v c.parameters })
drain_items short (received m ∷ rest) c = drain_items short rest c
drain_items short (broken ∷ rest) c = lost
drain_items true (pause ∷ rest) c = silent (record c { incoming = rest })
drain_items false (pause ∷ rest) c = drain_items false rest c
drain_items short (hang ∷ rest) c = silent (record c { incoming = rest })

unfoldable pub drain_until_ready : Bool → Conn → Drained
unfolding drain_items
drain_until_ready short c = drain_items short c.incoming c
