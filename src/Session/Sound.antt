-- ===== src/Session/Sound.antt =====
-- The invariant of a session of crates/pgferry/src/session.rs, and that its smaller actions keep it.
pub mod Attaching
pub mod Scattering
pub mod Asking
pub mod Forwarding
pub mod Whole
use pgferry.Prelude.{
  ℕ, String, ◌≡◌, refl, ◌≢◌, Option, none, some, List, [], ◌∷◌, Bool, true, false, not, ◌&&◌, ◌||◌,
  if◌then◌else◌, is_some, is_none, remove, arith,
}
use mathlib.Core.Option
use pgferry.Wire.{BackendMessage, TransactionStatus, FrontendMessage, ErrorInfo, Message}
use pgferry.Intercept.{Interceptor, CycleKind, simple, extended, UpstreamError}
use pgferry.Session.{CycleTracking, Downstream, SessionHooks, Registry, End, Pump, Env}
use pgferry.Session.Effects.{
  M, Out, ok, pure, gets, modify, send_ready_for_query, set_down_status, end_cycle,
  end_cycle_if_active, dispatch_upstream, dispatch_on_upstream_error,
  dispatch_on_upstream_connected, destroy_lease, ◌>>=◌, ◌>>◌,
}
use pgferry.Session.Triples.{
  Triple, IsLocal, Triple-pure, Triple-gets, Triple-modify, Triple-bind, Triple-weaken, Triple-send,
  Triple-send_all, Post,
}
use pgferry.Pool.{UpstreamLease}
use pgferry.Session.Custody.{Custody, InHand}
use pgferry.Session.Attach.{is_empty}
use pgferry.Session.Actions.{change_cycle, start_cycle, swallow, send_ready_at_lease, end_simple}

-- A session that the admin console shows as attached holds a lease; a lease that is not marked
-- dirty carries no prepared statement of the session, so a detach may skip `DISCARD ALL`.
abbrev pub Marked : {Ctx : Type 0} → Pump Ctx → Type 0
Marked p =
    ((not p.attached || is_some p.lease) ≡ true)
    × ((is_none p.lease || (p.lease_dirty || is_empty p.registry)) ≡ true)

-- The same, and every lease that the session was given is held or was given up, once.
abbrev pub Inv : {Ctx : Type 0} → Pump Ctx → Type 0
Inv p =
    ((not p.attached || is_some p.lease) ≡ true)
    × ((is_none p.lease || (p.lease_dirty || is_empty p.registry)) ≡ true)
    × Custody p

abbrev pub Leased : {Ctx : Type 0} → Pump Ctx → Type 0
Leased p = Inv p × (is_some p.lease ≡ true)

-- With this very lease.
abbrev pub Held : {Ctx : Type 0} → UpstreamLease → Pump Ctx → Type 0
Held l p = Inv p × (p.lease ≡ some l)

abbrev pub Detached : {Ctx : Type 0} → Pump Ctx → Type 0
Detached p = Inv p × (is_none p.lease ≡ true)

-- Detached, with a lease in hand: the connection that is being prepared.
abbrev pub Holding : {Ctx : Type 0} → UpstreamLease → Pump Ctx → Type 0
Holding l p = (p.attached ≡ false) × (is_none p.lease ≡ true) × InHand l p

-- The session's statements are marked for the connection in hand.
abbrev pub Prepared : {Ctx : Type 0} → UpstreamLease → Pump Ctx → Type 0
Prepared l p = Holding l p × ((p.lease_dirty || is_empty p.registry) ≡ true)

module _ {Ctx : Type 0} where
  pub Inv-local : IsLocal {Ctx = Ctx} Inv Inv
  Inv-local = record { down = λ p d h. h; hooks = λ p k h. h; holds = λ p h. h }

  pub Leased-local : IsLocal {Ctx = Ctx} Inv Leased
  Leased-local = record { down = λ p d h. h; hooks = λ p k h. h; holds = λ p h. h.0 }

  pub Detached-local : IsLocal {Ctx = Ctx} Inv Detached
  Detached-local = record { down = λ p d h. h; hooks = λ p k h. h; holds = λ p h. h.0 }

  pub swallow-Inv : {I : Pump Ctx → Type 0} → Triple {Ctx = Ctx} I Inv swallow (λ _. Inv)
  unfolding swallow
  swallow-Inv = Triple-modify _ (λ p h. h)

module _ {Ctx : Type 0} {P : Pump Ctx → Type 0} (l : IsLocal Inv P) where
  pub send_ready_for_query-local :
      (s : TransactionStatus) → Triple Inv P (send_ready_for_query s) (λ _. P)
  unfolding send_ready_for_query
  send_ready_for_query-local s = Triple-send l _

  pub set_down_status-local : (s : TransactionStatus) → Triple Inv P (set_down_status s) (λ _. P)
  unfolding set_down_status
  set_down_status-local s = Triple-modify _ (λ p h. l.down p _ h)

  pub change_cycle-local :
      (f : CycleTracking → CycleTracking) → Triple Inv P (change_cycle f) (λ _. P)
  unfolding change_cycle
  change_cycle-local f = Triple-modify _ (λ p h. l.hooks p _ h)

  pub start_cycle-local :
      (sql : Option String) (kind : CycleKind) → Triple Inv P (start_cycle sql kind) (λ _. P)
  unfolding start_cycle
  start_cycle-local sql kind = Triple-bind (Triple-gets _) (λ now. change_cycle-local _)

  pub send_ready_at_lease-local : Triple Inv P send_ready_at_lease (λ _. P)
  unfolding send_ready_at_lease
  send_ready_at_lease-local = Triple-bind (Triple-gets _) (λ s. send_ready_for_query-local s)

module _ {Ctx : Type 0} (ic : Interceptor Ctx) {P : Pump Ctx → Type 0} (l : IsLocal Inv P) where
  pub end_cycle-local : Triple Inv P (end_cycle ic) (λ _. P)
  unfolding end_cycle
  end_cycle-local = Triple-modify _ (λ p h. l.hooks p _ h)

  pub end_cycle_if_active-local : Triple Inv P (end_cycle_if_active ic) (λ _. P)
  unfolding end_cycle_if_active
  end_cycle_if_active-local = Triple-modify _ (λ p h. l.hooks p _ h)

  pub dispatch_upstream-local :
      (env : Env) (sql : Option String) → Triple Inv P (dispatch_upstream ic env sql) (λ _. P)
  unfolding dispatch_upstream
  dispatch_upstream-local env sql = record { at = λ p h. l.hooks p _ h }

  pub dispatch_on_upstream_error-local :
      (e : UpstreamError) → Triple Inv P (dispatch_on_upstream_error ic e) (λ _. P)
  unfolding dispatch_on_upstream_error
  dispatch_on_upstream_error-local e = record { at = λ p h. l.hooks p _ h }

  pub dispatch_on_upstream_connected-local :
      (id : String) → Triple Inv P (dispatch_on_upstream_connected ic id) (λ _. P)
  unfolding dispatch_on_upstream_connected
  dispatch_on_upstream_connected-local id = Triple-modify _ (λ p h. l.hooks p _ h)

pub is_empty-remove :
    (name : String) (r : Registry) → is_empty r ≡ true → is_empty (remove name r) ≡ true
unfolding remove
is_empty-remove name [] h = refl
is_empty-remove name (s ∷ r) h = cc
