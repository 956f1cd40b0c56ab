-- ===== src/Proxy/Slots.antt =====
-- How many clients the accept loop of crates/pgferry/src/proxy.rs serves at a time.
use pgferry.Prelude.{
  ℕ, ◌+◌, ◌≤◌, ◌≡◌, refl, ◌∙◌, some, List, [], ◌∷◌, arith, Option-cases, inl, inr,
}
use pgferry.Proxy.Accept.{
  AcceptLoop, Event, started, on_event, run, held, slot_acquired, accepted, accept_failed,
  session_ended, shutdown, all_joined, drain_elapsed,
}

-- Free slots, the slot in hand and the sessions' slots are all the slots there are.
abbrev AllSlots : ℕ → AcceptLoop → Type 0
AllSlots max l = l.client_slots + held l + l.sessions ≡ max

on_event-AllSlots :
    (max : ℕ) (e : Event) (l next : AcceptLoop)
    → on_event e l ≡ some next
    → AllSlots max l
    → AllSlots max next
unfolding on_event
on_event-AllSlots max slot_acquired l next h a = ground (arith, h, a)
on_event-AllSlots max accepted l next h a = ground (arith, h, a)
on_event-AllSlots max accept_failed l next h a = ground (arith, h, a)
on_event-AllSlots max session_ended l next h a = ground (arith, h, a)
on_event-AllSlots max shutdown l next h a = ground (arith, h, a)
on_event-AllSlots max all_joined l next h a = ground (arith, h, a)
on_event-AllSlots max drain_elapsed l next h a = ground (arith, h, a)

continues :
    (e : Event) (es : List Event) (l next : AcceptLoop)
    → on_event e l ≡ some next
    → run es next ≡ run (e ∷ es) l
unfolding run
continues e es l next h = rw (run, h) refl

run-AllSlots :
    (max : ℕ) (es : List Event) (l end : AcceptLoop)
    → run es l ≡ some end
    → AllSlots max l
    → AllSlots max end
unfolding run
run-AllSlots max [] l end h a = ground (arith, h, a)
run-AllSlots max (e ∷ es) l end h a = elim (Option-cases (on_event e l)) [
  | inl stuck ↦ absurd (ground (arith, stuck, h))
  | inr (next, goes) ↦
      run-AllSlots max es next end (continues e es l next goes ∙ h)
        (on_event-AllSlots max e l next goes a)
]

-- Whatever clients, failures, ends of sessions and shutdown come in whatever order: the sessions that
-- run are never more than `max_client_conn`, and once all have ended, every slot is free or in the
-- hand of the loop.
pub run-bounds :
    (max : ℕ) (es : List Event) (end : AcceptLoop)
    → run es (started max) ≡ some end
    → (end.sessions ≤ max) × (end.client_slots + held end + end.sessions ≡ max)
unfolding started
run-bounds max es end h =
    let a = run-AllSlots max es (started max) end h (omega arith) in (omega (arith, a), a)
