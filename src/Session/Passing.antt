-- ===== src/Session/Passing.antt =====
-- What a session of crates/pgferry/src/session.rs does with its client's messages while it holds a
-- lease, and when it is told to shut down.
use pgferry.Prelude.{
  ℕ, String, ◌≡◌, refl, some, List, Bool, true, false, not, ◌||◌, str_eq, eq_iff, sym, subst,
}
use pgferry.Wire.{FrontendMessage, query, sync, flush, parse}
use pgferry.Intercept.{Interceptor}
use pgferry.Pool.{UpstreamLease}
use pgferry.Session.{Pump, Env}
use pgferry.Session.Effects.{Out, ok, pure, gets, modify, ◌>>=◌}
use pgferry.Session.Query.{
  recovery_phase, local_phase, query_phase, query_hook, query_input, cycle_input_of, cycle_sql_of,
}
use pgferry.Conn
use pgferry.Session.Statements.{bind_statement_sql}
use pgferry.Session.Attach.{ensure_attached}
use pgferry.Session.Client.{
  client_message, upstream_phase, registry_phase, attach_phase, record_pending, frontend_hook,
  call_on_frontend, act_on_frontend, note_awaiting, forward, forward_on, sent_on,
}
use pgferry.Session.Answers.{leasing, written, writable, named}

-- The messages that a server answers at once.
abbrev pub is_owed : FrontendMessage → Bool
is_owed (query sql) = true
is_owed sync = true
is_owed flush = true
is_owed m = false

module _ {Ctx : Type 0} (ic : Interceptor Ctx) (env : Env) where
  not-eq-false : (b : Bool) → not b ≡ false → b ≡ true
  not-eq-false true e = refl
  not-eq-false false e = cc

  abbrev attempt :
      Bool → FrontendMessage → Bool → ℕ → UpstreamLease → Pump Ctx → Out (Unit {0}) × Pump Ctx
  attempt mode m draining r l p =
      client_message ic (record env { transaction_mode = mode }) m
        (leasing draining r (writable l) (record p { swallow_until_sync = false }))

  record Passes (mode : Bool) (m : FrontendMessage) (draining : Bool) (r : ℕ) (l : UpstreamLease)
      (p : Pump Ctx) : Type 0 where
    goes_on : (attempt mode m draining r l p).0 ≡ ok tt
    forwards : (attempt mode m draining r l p).1.lease ≡ some (written m (writable l))
    silent : (attempt mode m draining r l p).1.down.sent ≡ p.down.sent
    registers : (attempt mode m draining r l p).1.registry ≡ p.registry
    awaits :
        (attempt mode m draining r l p).1.hygiene.awaiting_response
        ≡ (is_owed m || p.hygiene.awaiting_response)
    attaches : (attempt mode m draining r l p).1.attached ≡ true

  unnamed-Passes :
      (mode : Bool) (sql : String) (oids : List ℕ) (draining : Bool) (r : ℕ) (l : UpstreamLease)
      (p : Pump Ctx)
      → Passes mode (parse (some "") sql oids) draining r l p
  unfolding client_message recovery_phase local_phase query_phase query_hook query_input
      cycle_input_of cycle_sql_of upstream_phase registry_phase bind_statement_sql attach_phase
      ensure_attached record_pending frontend_hook call_on_frontend act_on_frontend note_awaiting
      forward forward_on sent_on Conn.send ◌>>=◌ gets modify pure
  unnamed-Passes true sql oids draining r l p = record {
    goes_on = refl;
    forwards = refl;
    silent = refl;
    registers = refl;
    awaits = refl;
    attaches = refl;
  }
  unnamed-Passes false sql oids draining r l p = record {
    goes_on = refl;
    forwards = refl;
    silent = refl;
    registers = refl;
    awaits = refl;
    attaches = refl;
  }

  Passes-all :
      (mode : Bool) (m : FrontendMessage) (draining : Bool) (r : ℕ) (l : UpstreamLease)
      (p : Pump Ctx)
      → named m ≡ false
      → Passes mode m draining r l p
  unfolding client_message recovery_phase local_phase query_phase query_hook query_input
      cycle_input_of cycle_sql_of upstream_phase registry_phase bind_statement_sql attach_phase
      ensure_attached record_pending frontend_hook call_on_frontend act_on_frontend note_awaiting
      forward forward_on sent_on Conn.send ◌>>=◌ gets modify pure
  Passes-all mode (parse (some name) sql oids) draining r l p e =
      subst (λ n. Passes mode (parse (some n) sql oids) draining r l p)
        (sym ((eq_iff name "").0 (not-eq-false (str_eq name "") e)))
        (unnamed-Passes mode sql oids draining r l p)
  Passes-all true m draining r l p e = record {
    goes_on = refl;
    forwards = refl;
    silent = refl;
    registers = refl;
    awaits = refl;
    attaches = refl;
  }
  Passes-all false m draining r l p e = record {
    goes_on = refl;
    forwards = refl;
    silent = refl;
    registers = refl;
    awaits = refl;
    attaches = refl;
  }

  -- A session without hooks, with a connection that takes writes, that recovers from nothing passes
  -- every message but a named Parse on as it is, once and at the end of what was written (Terminate
  -- ends the session before); it sends the client nothing and leaves its statements alone;
  -- Query, Sync and Flush, and no others, set that the server owes an answer.
  pub client_message-forwards :
      (m : FrontendMessage) (draining : Bool) (r : ℕ) (l : UpstreamLease) (p : Pump Ctx)
      → named m ≡ false
      → let q =
          client_message ic env m
            (leasing draining r (writable l) (record p { swallow_until_sync = false })) in
        (q.0 ≡ ok tt)
        × (q.1.lease ≡ some (written m (writable l)))
        × (q.1.down.sent ≡ p.down.sent)
        × (q.1.registry ≡ p.registry)
        × (q.1.hygiene.awaiting_response ≡ (is_owed m || p.hygiene.awaiting_response))
        × (q.1.attached ≡ true)
  client_message-forwards m draining r l p e =
      let t = Passes-all env.transaction_mode m draining r l p e in
      (t.goes_on, t.forwards, t.silent, t.registers, t.awaits, t.attaches)
