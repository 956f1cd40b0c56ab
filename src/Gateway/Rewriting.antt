-- ===== src/Gateway/Rewriting.antt =====
-- A query that a session (crates/pgferry/src/session.rs) under the gateway of
-- crates/pgferry/examples/gateway.rs sends on: its text is that of the rewrites.
use mathlib.Core.Option
use pgferry.Prelude.{
  ℕ, ◌≡◌, refl, ◌∙◌, ap, sym, subst, String, Option, none, some, List, [], ◌∷◌, true, false,
  Bool-cases, inl, inr, if◌then◌else◌,
}
use pgferry.Wire.{query}
use pgferry.Intercept.{simple, QueryCycle, set_sql, Action, noop, new_cycle, take_rewritten}
use pgferry.Intercept.Builtin.{Rewrite, any_match, rewrite, check}
use pgferry.Session.{Pump, SessionHooks, Env}
use pgferry.Session.Effects.{ok, continue, pure, gets, modify, start, ◌>>=◌, ◌>>◌}
use pgferry.Session.Actions.{change_cycle, start_cycle}
use pgferry.Session.Query.{
  apply_rewrite, cycle_input_of, cycle_sql_of, ask_interceptor, act_on_query, query_hook,
  query_input, query_phase,
}
use pgferry.Pool.{UpstreamLease}
use pgferry.Conn
use pgferry.Session.Statements.{bind_statement_sql}
use pgferry.Session.Attach.{ensure_attached}
use pgferry.Session.Client.{
  client_message, upstream_phase, registry_phase, attach_phase, record_pending, frontend_hook,
  call_on_frontend, act_on_frontend, note_awaiting, forward, forward_on, sent_on,
}
use pgferry.Session.Answers.{writable, written}
use pgferry.Gateway.{
  Gateway, Library, GatewayState, rewritten, rewrite_all, rewrite_and_spread, spread, unless_denied,
  on_query, gateway,
}
use pgferry.Gateway.Asking.{listening, noted, client_message-asks}

-- The text after each rewrite in turn.
abbrev pub after_rewrites :
    {Regex : Type 0} → Library Regex → List (Rewrite Regex) → String → String
after_rewrites lib [] sql = sql
after_rewrites lib (w ∷ ws) sql =
    after_rewrites lib ws
      (if lib.is_match w.pattern sql then lib.replace_all w.pattern sql w.replacement else sql)

module _ {Regex : Type 0} (lib : Library Regex) (now : ℕ) (g : Gateway Regex) (env : Env) where
  next_sql : Rewrite Regex → QueryCycle → Option String
  unfolding rewrite
  next_sql w cycle = rewrite lib.is_match lib.replace_all cycle.sql w

  next_sql-matches :
      (w : Rewrite Regex) (cycle : QueryCycle)
      → lib.is_match w.pattern cycle.sql ≡ true
      → next_sql w cycle ≡ some (lib.replace_all w.pattern cycle.sql w.replacement)
  unfolding next_sql rewrite
  next_sql-matches w cycle e = rw e refl

  next_sql-passes :
      (w : Rewrite Regex) (cycle : QueryCycle)
      → lib.is_match w.pattern cycle.sql ≡ false
      → next_sql w cycle ≡ none
  unfolding next_sql rewrite
  next_sql-passes w cycle e = rw e refl

  rewrite_all-sql :
      (ws : List (Rewrite Regex)) (cycle : QueryCycle)
      → (rewrite_all lib ws cycle).sql ≡ after_rewrites lib ws cycle.sql
  unfolding rewrite_all next_sql rewrite set_sql
  rewrite_all-sql [] cycle = refl
  rewrite_all-sql (w ∷ ws) cycle =
      let new_sql = lib.replace_all w.pattern cycle.sql w.replacement in
      elim (Bool-cases (lib.is_match w.pattern cycle.sql)) [
        | inl e ↦
            ap (λ r. (rewrite_all lib ws (rewritten lib r cycle)).sql) (next_sql-matches w cycle e)
            ∙ rewrite_all-sql ws (set_sql new_sql cycle)
            ∙ ap (λ b. after_rewrites lib ws (if b then new_sql else cycle.sql)) (sym e)
        | inr e ↦
            ap (λ r. (rewrite_all lib ws (rewritten lib r cycle)).sql) (next_sql-passes w cycle e)
            ∙ rewrite_all-sql ws cycle
            ∙ ap (λ b. after_rewrites lib ws (if b then new_sql else cycle.sql)) (sym e)
      ]

  -- What a cycle sends on is its text.
  Applies : String → QueryCycle → Type 0
  Applies sql cycle = apply_rewrite (take_rewritten cycle) (query sql) ≡ query cycle.sql

  rewrite_all-Applies :
      (ws : List (Rewrite Regex)) (sql : String) (cycle : QueryCycle)
      → Applies sql cycle
      → Applies sql (rewrite_all lib ws cycle)
  unfolding Applies rewrite_all next_sql rewrite set_sql take_rewritten apply_rewrite
  rewrite_all-Applies [] sql cycle k = k
  rewrite_all-Applies (w ∷ ws) sql cycle k =
      let new_sql = lib.replace_all w.pattern cycle.sql w.replacement in
      elim (Bool-cases (lib.is_match w.pattern cycle.sql)) [
        | inl e ↦
            subst (λ r. Applies sql (rewrite_all lib ws (rewritten lib r cycle)))
              (sym (next_sql-matches w cycle e))
              (rewrite_all-Applies ws sql (set_sql new_sql cycle) refl)
        | inr e ↦
            subst (λ r. Applies sql (rewrite_all lib ws (rewritten lib r cycle)))
              (sym (next_sql-passes w cycle e)) (rewrite_all-Applies ws sql cycle k)
      ]

  check_passes :
      (sql : String)
      → any_match lib.is_match g.denied.patterns sql ≡ false
      → check lib.is_match sql g.denied ≡ none
  unfolding check
  check_passes sql e = rw e refl

  asked_forwards :
      (sql : String) (h : SessionHooks GatewayState) (p : Pump GatewayState)
      → let new_sql = after_rewrites lib g.rewrites sql in
        any_match lib.is_match g.denied.patterns sql ≡ false
        → spread lib g.shards g.shard_all new_sql ≡ Action.forward
        → query_phase (gateway lib now g) env (query sql) (record p { hooks = some h })
          ≡ (start_cycle (some new_sql) simple >> pure (query new_sql)) (noted h p)
  unfolding query_phase cycle_input_of query_input query_hook ask_interceptor act_on_query gateway
      on_query new_cycle gets modify ◌>>=◌ rewrite_and_spread Applies take_rewritten apply_rewrite
  asked_forwards sql h p e f =
      let ic = gateway lib now g in
      let new_sql = after_rewrites lib g.rewrites sql in
      let cycle = rewrite_all lib g.rewrites (new_cycle sql simple) in
      let same : cycle.sql ≡ new_sql = rewrite_all-sql g.rewrites (new_cycle sql simple) in
      let applied : apply_rewrite (take_rewritten cycle) (query sql) ≡ query new_sql =
        rewrite_all-Applies g.rewrites sql (new_cycle sql simple) refl ∙ ap query same in
      ap
        (λ r.
          let (c, action) = unless_denied lib r g (new_cycle sql simple) in
          act_on_query ic env (query sql) sql simple (take_rewritten c) action (noted h p))
        (check_passes sql e)
      ∙ ap
          (λ action.
            act_on_query ic env (query sql) sql simple (take_rewritten cycle) action (noted h p))
          (ap (spread lib g.shards g.shard_all) same ∙ f)
      ∙ ap (λ m. (start_cycle (cycle_sql_of m) simple >> pure m) (noted h p)) applied

  -- A query that no pattern of the deny list matches and that is not for every shard, in a session with
  -- a connection that takes writes: the rewrites are applied in turn, and the text that they leave is
  -- what is written to the server, once and behind what was written before, and what the cycle is
  -- reported with; the client is sent nothing, no connection is asked for or given up, and the health
  -- of the endpoints, the audit and the reports stay.
  pub client_message-rewrites :
      (sql : String) (h : SessionHooks GatewayState) (n : ℕ) (l : UpstreamLease)
      (p : Pump GatewayState)
      → any_match lib.is_match g.denied.patterns sql ≡ false
      → spread lib g.shards g.shard_all (after_rewrites lib g.rewrites sql) ≡ Action.forward
      → let new_sql = after_rewrites lib g.rewrites sql in
        let q =
          client_message
            (gateway lib now g)
            env
            (query sql)
            (listening h n (record p { lease = some (writable l) })) in
        (q.0 ≡ ok tt)
        × (q.1.lease ≡ some (written (query new_sql) (writable l)))
        × (Option.map (λ k. k.cycle.sql) q.1.hooks ≡ some (some new_sql))
        × (Option.map (λ k. k.ctx) q.1.hooks ≡ some h.ctx)
        × (q.1.down.sent ≡ p.down.sent)
        × (q.1.checkouts ≡ p.checkouts)
        × (q.1.released ≡ p.released)
  unfolding client_message start_cycle change_cycle start upstream_phase registry_phase
      bind_statement_sql attach_phase ensure_attached record_pending frontend_hook call_on_frontend
      act_on_frontend note_awaiting forward forward_on sent_on Conn.send gets modify pure gateway
      noop ◌>>=◌
  client_message-rewrites sql h n l p e f =
      let held = record p { lease = some (writable l) } in
      let whole =
        client_message-asks lib now g env sql h n held
        ∙ ap (λ r. continue r.0 (upstream_phase (gateway lib now g) env (some sql)) r.1)
            (asked_forwards sql h (listening h n held) e f) in
      (
        ap (λ q. q.0) whole,
        ap (λ q. q.1.lease) whole,
        ap (λ q. Option.map (λ k. k.cycle.sql) q.1.hooks) whole,
        ap (λ q. Option.map (λ k. k.ctx) q.1.hooks) whole,
        ap (λ q. q.1.down.sent) whole,
        ap (λ q. q.1.checkouts) whole,
        ap (λ q. q.1.released) whole,
      )
