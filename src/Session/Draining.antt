-- ===== src/Session/Draining.antt =====
-- What a session of crates/pgferry/src/session.rs still does once it is told to shut down.
use pgferry.Prelude.{ℕ, suc, some, none, List, [], ◌∷◌, Bool, true, ◌||◌}
use pgferry.Wire.{BackendMessage, ready_for_query}
use pgferry.Intercept.{Interceptor}
use pgferry.Pool.{UpstreamLease}
use pgferry.Session.{Pump}
use pgferry.Session.Relay.{server_message}
use pgferry.Session.Events.{Event, from_server, copying}
use pgferry.Session.Answers.{leasing}

-- No message of these ends a cycle.
abbrev pub AllWithin : List (ℕ × BackendMessage) → Type 0
AllWithin [] = Unit {0}
AllWithin ((t, ready_for_query s) ∷ ms) = ⊥
AllWithin ((t, m) ∷ ms) = AllWithin ms

-- The server's messages, as events.
abbrev pub served : List (ℕ × BackendMessage) → List (ℕ × Event)
served [] = []
served ((t, m) ∷ ms) = (t, from_server m) ∷ served ms

abbrev pub messages : List (ℕ × BackendMessage) → List BackendMessage
messages [] = []
messages ((t, m) ∷ ms) = m ∷ messages ms

-- Room for these messages, and `r` more.
abbrev pub room_for : List (ℕ × BackendMessage) → ℕ → ℕ
room_for [] r = r
room_for (m ∷ ms) r = suc (room_for ms r)

-- An answer is owed, or a COPY under way.
abbrev pub is_working : {Ctx : Type 0} → Pump Ctx → Bool
is_working p = p.hygiene.awaiting_response || copying p.hygiene.copy

module _ {Ctx : Type 0} (ic : Interceptor Ctx) where
  -- The state of a draining session after a message.
  abbrev after_message : Bool → ℕ → UpstreamLease → BackendMessage → Pump Ctx → Pump Ctx
  after_message mode r l m p = (server_message ic mode l m (leasing true (suc r) l p)).1

  abbrev lease_after : Bool → ℕ → UpstreamLease → BackendMessage → Pump Ctx → UpstreamLease
  lease_after mode r l m p = elim (after_message mode r l m p).lease [ none ↦ l | some l' ↦ l' ]
