-- ===== src/Proxy/Accept.antt =====
-- The accept loop of crates/pgferry/src/proxy.rs: `accept_loop`, one event at a time. A session's task
-- owns the slot that its client got and gives it back when it ends.
use pgferry.Prelude.{
  ℕ, ◌+◌, ◌-◌, Option, none, some, List, [], ◌∷◌, Bool, true, false, if◌then◌else◌, ltb, ◌&&◌, not,
}

pub data Phase : Type 0 where
  accepting draining done : Phase

-- The free permits of `client_slots`, whether the loop holds one that it has no client for yet, and
-- the tasks of `sessions`.
pub record AcceptLoop : Type 0 where
  pub phase : Phase
  pub client_slots : ℕ
  pub slot : Bool
  pub sessions : ℕ

pub data Event : Type 0 where
  slot_acquired accepted accept_failed session_ended shutdown all_joined drain_elapsed : Event

unfoldable pub started : ℕ → AcceptLoop
started max_client_conn = record {
  phase = accepting;
  client_slots = max_client_conn;
  slot = false;
  sessions = 0;
}

abbrev when : Bool → AcceptLoop → Option AcceptLoop
when true l = some l
when false l = none

abbrev pub is_accepting : Phase → Bool
is_accepting accepting = true
is_accepting draining = false
is_accepting done = false

abbrev is_draining : Phase → Bool
is_draining accepting = false
is_draining draining = true
is_draining done = false

abbrev pub held : AcceptLoop → ℕ
held l = if l.slot then 1 else 0

-- The state after an event; `none` for an event that the state does not wait for. `break` leaves the
-- block that holds the slot, and `abort_all` drops every task with its slot.
unfoldable pub on_event : Event → AcceptLoop → Option AcceptLoop
on_event slot_acquired l =
    when (is_accepting l.phase && (not l.slot && ltb 0 l.client_slots))
      (record l { client_slots = l.client_slots - 1; slot = true })
on_event accepted l =
    when (is_accepting l.phase && l.slot) (record l { slot = false; sessions = l.sessions + 1 })
on_event accept_failed l =
    when (is_accepting l.phase && l.slot)
      (record l { slot = false; client_slots = l.client_slots + 1 })
on_event session_ended l =
    when (ltb 0 l.sessions)
      (record l { client_slots = l.client_slots + 1; sessions = l.sessions - 1 })
on_event shutdown l =
    when (is_accepting l.phase)
      (record l { phase = draining; slot = false; client_slots = l.client_slots + held l })
on_event all_joined l =
    when (is_draining l.phase && not (ltb 0 l.sessions)) (record l { phase = done })
on_event drain_elapsed l =
    when (is_draining l.phase)
      (record l { phase = done; client_slots = l.client_slots + l.sessions; sessions = 0 })

unfoldable pub run : List Event → AcceptLoop → Option AcceptLoop
unfolding on_event
run [] l = some l
run (e ∷ es) l = elim (on_event e l) [ none ↦ none | some next ↦ run es next ]
