-- ===== src/Session/Triples.antt =====
-- Rules for the handlers of a session: what holds before and after an action, when it goes on, ends
-- the iteration or ends the session.
use pgferry.Prelude.{◌≢◌, Option, none, some, List, [], ◌∷◌, Bool, true, false, if◌then◌else◌}
use pgferry.Wire.{BackendMessage}
use pgferry.Session.{Downstream, End, client_gone, panicked, Pump, SessionHooks}
use pgferry.Session.Effects.{
  M, Out, ok, skip, stop, continue, pure, next_iteration, break, gets, modify, try_send, send,
  send_or_ignore, send_all, ◌>>=◌,
}

module _ {Ctx : Type 0} where
  -- `I` holds at the end of the iteration, and the session does not end in a panic.
  abbrev pub Post :
      {A : Type 0} (I : Pump Ctx → Type 0) (Q : A → Pump Ctx → Type 0) → Out A × Pump Ctx → Type 0
  Post I Q (ok a, p) = Q a p
  Post I Q (skip, p) = I p
  Post I Q (stop e, p) = I p × (e ≢ panicked)

  pub record Triple {A : Type 0} (I P : Pump Ctx → Type 0) (m : M Ctx A) (Q : A → Pump Ctx → Type 0)
      : Type 0 where
    pub at : (p : Pump Ctx) → P p → Post I Q (m p)

module _ {Ctx : Type 0} {I : Pump Ctx → Type 0} where
  pub Triple-pure : {A : Type 0} {Q : A → Pump Ctx → Type 0} (a : A) → Triple I (Q a) (pure a) Q
  unfolding pure
  Triple-pure a = record { at = λ p h. h }

  pub Triple-next : {A : Type 0} {Q : A → Pump Ctx → Type 0} → Triple I I next_iteration Q
  unfolding next_iteration
  Triple-next = record { at = λ p h. h }

  pub Triple-break :
      {A : Type 0} {Q : A → Pump Ctx → Type 0} {e : End} → e ≢ panicked → Triple I I (break e) Q
  unfolding break
  Triple-break ne = record { at = λ p h. (h, ne) }

  pub Triple-gets :
      {A : Type 0} {P : Pump Ctx → Type 0} (f : Pump Ctx → A) → Triple I P (gets f) (λ _. P)
  unfolding gets
  Triple-gets f = record { at = λ p h. h }

  pub Triple-modify :
      {P : Pump Ctx → Type 0} {Q : Pump Ctx → Type 0} (f : Pump Ctx → Pump Ctx)
      → ((p : Pump Ctx) → P p → Q (f p))
      → Triple I P (modify f) (λ _. Q)
  unfolding modify
  Triple-modify f k = record { at = k }

  pub Triple-weaken :
      {A : Type 0} {P P' : Pump Ctx → Type 0} {m : M Ctx A} {Q : A → Pump Ctx → Type 0}
      → ((p : Pump Ctx) → P' p → P p)
      → Triple I P m Q
      → Triple I P' m Q
  Triple-weaken k t = record { at = λ p h. t.at p (k p h) }

  continue-Post :
      {A B : Type 0} {Q : A → Pump Ctx → Type 0} {R : B → Pump Ctx → Type 0} (f : A → M Ctx B)
      → ((a : A) → Triple I (Q a) (f a) R)
      → (r : Out A) (p : Pump Ctx) → Post I Q (r, p)
      → Post I R (continue r f p)
  continue-Post f k (ok a) p h = (k a).at p h
  continue-Post f k skip p h = h
  continue-Post f k (stop e) p h = h

  pub Triple-bind :
      {A B : Type 0} {P : Pump Ctx → Type 0} {Q : A → Pump Ctx → Type 0} {R : B → Pump Ctx → Type 0}
      {m : M Ctx A} {f : A → M Ctx B}
      → Triple I P m Q
      → ((a : A) → Triple I (Q a) (f a) R)
      → Triple I P (m >>= f) R
  unfolding ◌>>=◌
  Triple-bind {m = m} {f} t k = record {
    at = λ p h. let (r, p') = m p in continue-Post f k r p' (t.at p h);
  }

  pub Triple-if :
      {A : Type 0} {P : Pump Ctx → Type 0} {Q : A → Pump Ctx → Type 0} (b : Bool) (m n : M Ctx A)
      → Triple I P m Q
      → Triple I P n Q
      → Triple I P (if b then m else n) Q
  Triple-if true m n t u = t
  Triple-if false m n t u = u

-- A predicate that does not look at the client's connection or at the hooks.
pub record IsLocal {Ctx : Type 0} (I P : Pump Ctx → Type 0) : Type 0 where
  pub down : (p : Pump Ctx) (d : Downstream) → P p → P (record p { down = d })
  pub hooks : (p : Pump Ctx) (h : Option (SessionHooks Ctx)) → P p → P (record p { hooks = h })
  pub holds : (p : Pump Ctx) → P p → I p

module _ {Ctx : Type 0} {I P : Pump Ctx → Type 0} (l : IsLocal I P) where
  send-Post :
      (p : Pump Ctx)
      → P p
      → (r : Option Downstream)
      → Post I
          (λ (_ : Unit {0}). P)
          (elim r [ none ↦ (stop client_gone, p) | some d ↦ (ok tt, record p { down = d }) ])
  send-Post p h none = (l.holds p h, λ e. cc e)
  send-Post p h (some d) = l.down p d h

  pub Triple-send : (m : BackendMessage) → Triple I P (send m) (λ _. P)
  unfolding send
  Triple-send m = record { at = λ p h. send-Post p h (try_send m p.down) }

  ignore-Post :
      (p : Pump Ctx)
      → P p
      → (r : Option Downstream)
      → Post I
          (λ (_ : Unit {0}). P)
          (elim r [ none ↦ (ok tt, p) | some d ↦ (ok tt, record p { down = d }) ])
  ignore-Post p h none = h
  ignore-Post p h (some d) = l.down p d h

  pub Triple-send_or_ignore : (m : BackendMessage) → Triple I P (send_or_ignore m) (λ _. P)
  unfolding send_or_ignore
  Triple-send_or_ignore m = record { at = λ p h. ignore-Post p h (try_send m p.down) }

  pub Triple-send_all : (ms : List BackendMessage) → Triple I P (send_all ms) (λ _. P)
  unfolding send_all
  Triple-send_all [] = Triple-pure tt
  Triple-send_all (m ∷ ms) = Triple-bind (Triple-send m) (λ _. Triple-send_all ms)
