-- ===== src/Session/Sound/Attaching.antt =====
-- An attach keeps the session's invariant, and leaves a lease when it succeeds.
use pgferry.Prelude.{
  ℕ, zero, suc, String, ◌≡◌, refl, Option, none, some, Bool, true, false, ◌||◌, is_some, subst,
  arith, if◌then◌else◌, Bool-cases, inl, inr,
}
use Prim.Native.String.{◌++◌}
use pgferry.Wire.{Message, failed_to_prepare, failed_to_replay_guc, failed_to_replay_statements}
use pgferry.Config.{EndpointConfig, endpoint}
use pgferry.Conn.{Conn}
use pgferry.Intercept.{Interceptor, RetryDecision}
use pgferry.Pool.{UpstreamLease}
use pgferry.Pool.Parameters.{sync_startup_parameters}
use pgferry.Pool.Sanitize.{refused}
use pgferry.Session.{Pump, Env, Checkout, leased, refused}
use pgferry.Session.Custody.{destroyed-Custody, leased-Custody, granted-InHand}
use pgferry.Session.Effects.{dispatch_on_upstream_connected, ok, pure, modify, ◌>>◌}
use pgferry.Session.Statements.{replay, replay_gucs, Replayed, replayed, failed_at}
use pgferry.Session.Attach.{
  Tried, attached, retry, fatal, consult, abandon, finish_attach, prepare_statements, prepare_gucs,
  prepare_startup, ask_pool, use_answer, attach_to, try_attach, attach_loop, ensure_attached,
  send_attach_fatal, attempts, is_empty,
}
use pgferry.Session.Triples.{
  Triple, Triple-pure, Triple-gets, Triple-modify, Triple-bind, Triple-weaken, Post,
  Triple-send_or_ignore,
}
use pgferry.Session.Sound.{
  Inv, Leased, Detached, Holding, Prepared, Inv-local, Detached-local, dispatch_upstream-local,
  dispatch_on_upstream_error-local,
}

-- What a round of the loop leaves.
abbrev After : {Ctx : Type 0} → Tried → Pump Ctx → Type 0
After attached p = Leased p
After retry p = Detached p
After (fatal m) p = Detached p

module _ {Ctx : Type 0} (ic : Interceptor Ctx) (env : Env) where
  consult-After :
      (id text : String) (m : Message) → Triple Inv Detached (consult ic env id text m) After
  unfolding consult
  consult-After id text m =
      Triple-bind (dispatch_on_upstream_error-local ic Detached-local _) elim [
        | RetryDecision.relink ↦ Triple-pure retry
        | RetryDecision.close ↦ Triple-pure (fatal m)
      ]

  abandon-After :
      (l : UpstreamLease) (id text : String) (m : Message)
      → Triple Inv (Holding l) (abandon ic env l id text m) After
  unfolding abandon
  abandon-After l id text m =
      Triple-bind
        (Triple-modify {Q = Detached} _
          (λ p h. ((ground (arith, h.0), ground (arith, h.1), destroyed-Custody l p h.1 h.2), h.1)))
        (λ _. consult-After id text m)

  finish_attach-After :
      (id : String) (l : UpstreamLease) → Triple Inv (Prepared l) (finish_attach ic env id l) After
  unfolding finish_attach dispatch_on_upstream_connected
  finish_attach-After id l = Triple-bind (Triple-modify {Q = Prepared l} _ (λ p h. h)) λ _.
      Triple-bind
        (Triple-modify {Q = Leased} _
          (λ p h. ((ground arith, h.1, leased-Custody l p h.0.2), refl)))
        (λ _. Triple-pure attached)

  -- Statements to replay make the connection dirty.
  mark-Prepared :
      (l : UpstreamLease) (p : Pump Ctx)
      → Holding l p
      → Prepared l (if is_empty p.registry then p else record p { lease_dirty = true })
  mark-Prepared l p h = elim (Bool-cases (is_empty p.registry)) [
    | inl e ↦ rw e (h, ground (arith, e))
    | inr e ↦ rw e (h, refl)
  ]

  prepare_statements-After :
      (id : String) (l : UpstreamLease)
      → Triple Inv (Holding l) (prepare_statements ic env id l) After
  unfolding prepare_statements
  prepare_statements-After id l =
      Triple-bind (Triple-gets _) λ registry. after (replay registry l.conn)
    where
      after :
          (r : Option Conn)
          → Triple Inv
              (Holding l)
              (elim r [
                | none ↦
                    abandon ic env l id "prepared statement replay failed"
                      failed_to_replay_statements
                | some c ↦ do
                  modify λ p. if is_empty p.registry then p else record p { lease_dirty = true }
                  finish_attach ic env id (record l { conn = c })
              ])
              After
      after none = abandon-After l id _ _
      after (some c) =
          Triple-bind (Triple-modify _ (mark-Prepared (record l { conn = c })))
            (λ _. finish_attach-After id _)

  prepare_gucs-After :
      (id : String) (l : UpstreamLease) → Triple Inv (Holding l) (prepare_gucs ic env id l) After
  unfolding prepare_gucs
  prepare_gucs-After id l = Triple-bind (Triple-gets _) λ gucs.
      Triple-bind (Triple-gets _) λ dirty. after (replay_gucs env.simple_query gucs dirty l.conn)
    where
      after :
          (r : Replayed)
          → Triple Inv
              (Holding l)
              (elim r [
                | failed_at name dirty' ↦ do
                  modify λ p. record p { lease_dirty = dirty' }
                  abandon ic env l id ("GUC replay: SET " ++ name) (failed_to_replay_guc name)
                | replayed c dirty' ↦ do
                  modify λ p. record p { lease_dirty = dirty' }
                  prepare_statements ic env id (record l { conn = c })
              ])
              After
      after (failed_at name dirty') =
          Triple-bind (Triple-modify _ (λ p h. h)) (λ _. abandon-After l id _ _)
      after (replayed c dirty') =
          Triple-bind (Triple-modify _ (λ p h. h)) (λ _. prepare_statements-After id _)

  prepare_startup-After :
      (id : String) (l : UpstreamLease) → Triple Inv (Holding l) (prepare_startup ic env id l) After
  unfolding prepare_startup
  prepare_startup-After id l =
      after (sync_startup_parameters env.simple_query env.startup_parameters l.conn)
    where
      after :
          (r : Option Conn)
          → Triple Inv
              (Holding l)
              (elim r [
                | none ↦ abandon ic env l id "parameter sync" failed_to_prepare
                | some c ↦ prepare_gucs ic env id (record l { conn = c })
              ])
              After
      after none = abandon-After l id _ _
      after (some c) = prepare_gucs-After id _

  ask_pool-Detached : (id : String) → Triple Inv Detached (ask_pool ic env id) (λ _. Detached)
  unfolding ask_pool
  ask_pool-Detached id = record { at = λ p h. h }

  use_answer-After :
      (id : String) (c : Checkout) → Triple Inv Detached (use_answer ic env id c) After
  unfolding use_answer
  use_answer-After id (refused error) = consult-After id _ _
  use_answer-After id (leased lease) =
      Triple-bind
        (Triple-modify {Q = Holding lease} _
          (λ p h. (ground (arith, h), h.1, granted-InHand lease p h.1 h.0.2)))
        (λ _. prepare_startup-After id lease)

  attach_to-After :
      (id : String) (e : Option EndpointConfig) → Triple Inv Detached (attach_to ic env id e) After
  unfolding attach_to
  attach_to-After id none = Triple-pure (fatal _)
  attach_to-After id (some e) = Triple-bind (ask_pool-Detached e.id) (use_answer-After e.id)

  try_attach-After : (sql : Option String) → Triple Inv Detached (try_attach ic env sql) After
  unfolding try_attach
  try_attach-After sql =
      Triple-bind (dispatch_upstream-local ic Detached-local env sql)
        λ id. attach_to-After id (endpoint env.route id)

  abbrev pub Attaches : Bool → Pump Ctx → Type 0
  Attaches true p = Leased p
  Attaches false p = Inv p

  fatal-Attaches : (m : Message) → Triple Inv Detached (do send_attach_fatal m; pure false) Attaches
  unfolding send_attach_fatal
  fatal-Attaches m =
      Triple-bind (Triple-weaken (λ p h. h.0) (Triple-send_or_ignore Inv-local _))
        (λ _. Triple-pure false)

  attach_loop-Attaches :
      (n : ℕ) (sql : Option String) → Triple Inv Detached (attach_loop ic env n sql) Attaches
  unfolding attach_loop
  attach_loop-Attaches zero sql = fatal-Attaches _
  attach_loop-Attaches (suc n) sql = Triple-bind (try_attach-After sql) elim [
    | attached ↦ Triple-pure true
    | retry ↦ attach_loop-Attaches n sql
    | fatal m ↦ fatal-Attaches m
  ]

  ensure-Post :
      (sql : Option String) (p : Pump Ctx)
      → Inv p
      → (l : Option UpstreamLease) → p.lease ≡ l
      → Post Inv Attaches
          (elim l [ some l ↦ (ok true, p) | none ↦ attach_loop ic env (attempts ic env) sql p ])
  ensure-Post sql p h (some l) e = (h, rw e refl)
  ensure-Post sql p h none e = (attach_loop-Attaches (attempts ic env) sql).at p (h, rw e refl)

  pub ensure_attached-Attaches :
      (sql : Option String) → Triple Inv Inv (ensure_attached ic env sql) Attaches
  unfolding ensure_attached
  ensure_attached-Attaches sql = record { at = λ p h. ensure-Post sql p h p.lease refl }

  -- Whatever the routing hook, the pools and the replayed state answer: an attach of a session that
  -- satisfies the invariant and that reports success leaves the session with a lease, which is marked
  -- as dirty unless the session has no prepared statements.
  pub ensure_attached-leases :
      (sql : Option String) (p p' : Pump Ctx)
      → Inv p
      → ensure_attached ic env sql p ≡ (ok true, p')
      → (is_some p'.lease ≡ true) × ((p'.lease_dirty || is_empty p'.registry) ≡ true)
  ensure_attached-leases sql p p' h e =
      let t : Leased p' = subst (Post Inv Attaches) e ((ensure_attached-Attaches sql).at p h) in
      ground arith
