-- ===== src/Gateway/Asking.antt =====
-- What a session (crates/pgferry/src/session.rs) under the gateway of
-- crates/pgferry/examples/gateway.rs does with a query.
use Prim.Native.Nat.{suc}
use mathlib.Core.Option
use pgferry.Prelude.{
  ◌+◌, ◌-◌, ◌%◌, ◌^◌, List, length, drop, ltb, sym, ℕ, ◌≡◌, refl, ◌∙◌, ap, String, none, some, [],
  ◌∷◌, ◌++◌, true, false, is_none, ◌&&◌, Bool-cases, inl, inr, ◌-◌, arith,
}
use pgferry.Wire.{ErrorInfo, query, error_response, ready_for_query, remote}
use pgferry.Intercept.{simple, new_cycle, take_rewritten, from_info, CycleReport}
use pgferry.Intercept.Builtin.Recent.{newest}
use pgferry.Intercept.Builtin.{push_recent, record_cycle, any_match, check}
use pgferry.Session.{Pump, SessionHooks, Env}
use pgferry.Session.Effects.{
  skip, continue, pure, next_iteration, gets, modify, send, try_send, send_ready_for_query,
  lease_status, start, report_of, end_cycle, end_hooks, ◌>>=◌,
}
use pgferry.Session.Actions.{send_ready_at_lease, change_cycle, start_cycle, end_denied, denied}
use pgferry.Session.Query.{
  recovery_phase, answer_locally, local_phase, cycle_input_of, cycle_sql_of, ask_interceptor,
  act_on_query, query_hook, query_input, query_phase,
}
use pgferry.Session.Client.{client_message, upstream_phase}
use pgferry.Gateway.{Gateway, Library, GatewayState, unless_denied, on_query, on_cycle_end, gateway}

-- A session that recovers from nothing, with hooks, whose client takes two more messages at least.
abbrev pub listening : {Ctx : Type 0} → SessionHooks Ctx → ℕ → Pump Ctx → Pump Ctx
listening h n p = record p {
  swallow_until_sync = false;
  hooks = some h;
  down = record (p.down) { room = suc (suc n) };
}

-- A query is about to be asked of the hooks.
abbrev pub noted : SessionHooks GatewayState → Pump GatewayState → Pump GatewayState
noted h p = record p { hooks = some h; cycle_is_extended = false }

-- The error that the deny list answers with, and the report of the query's cycle.
abbrev pub denial : {Regex : Type 0} → Gateway Regex → ErrorInfo
denial g = record { severity = "ERROR"; code = g.denied.code; message = remote g.denied.message }

abbrev pub denial_report : {Regex : Type 0} → Gateway Regex → String → ℕ → CycleReport
unfolding from_info
denial_report g sql latency = record {
  sql = some sql;
  kind = simple;
  tag = none;
  rows = 0;
  rows_dropped = 0;
  error = some (from_info (denial g));
  latency = latency;
}

-- The context once a denied query was reported: two counters are one higher, and the report is last
-- in both lists, of which the audit's holds 128 at most.
abbrev pub noted_denial : CycleReport → GatewayState → GatewayState
noted_denial report s = record s {
  audit = record {
    cycles = (s.audit.cycles + 1) % 2 ^ 64;
    errors = (s.audit.errors + 1) % 2 ^ 64;
    rows = (s.audit.rows + 0) % 2 ^ 64;
    latency_total_us = (s.audit.latency_total_us + 0) % 2 ^ 64;
    recent = newest (s.audit.recent ++ report ∷ []);
  };
  reports = s.reports ++ report ∷ [];
}

module _ {Regex : Type 0} (lib : Library Regex) (now : ℕ) (g : Gateway Regex) (env : Env) where
  local_query :
      (sql : String) (p : Pump GatewayState)
      → local_phase (gateway lib now g) env.transaction_mode (query sql) p ≡ pure tt p
  unfolding local_phase answer_locally gets ◌>>=◌
  local_query sql p = elim (Bool-cases (env.transaction_mode && is_none p.lease)) [
    | inl e ↦ rw e refl
    | inr e ↦ rw e refl
  ]

  check_denies :
      (sql : String)
      → any_match lib.is_match g.denied.patterns sql ≡ true
      → check lib.is_match sql g.denied ≡ some (denial g)
  unfolding check
  check_denies sql e = rw e refl

  asked_denied :
      (sql : String) (h : SessionHooks GatewayState) (p : Pump GatewayState)
      → any_match lib.is_match g.denied.patterns sql ≡ true
      → query_phase (gateway lib now g) env (query sql) (record p { hooks = some h })
        ≡ denied (gateway lib now g) sql simple (denial g) (noted h p)
  unfolding query_phase cycle_input_of query_input query_hook ask_interceptor act_on_query gateway
      on_query new_cycle gets modify ◌>>=◌
  asked_denied sql h p e =
      ap
        (λ r.
          let (cycle, action) = unless_denied lib r g (new_cycle sql simple) in
          act_on_query (gateway lib now g) env (query sql) sql simple (take_rewritten cycle) action
            (noted h p))
        (check_denies sql e)

  -- A query is asked of the interceptor, whatever the mode.
  pub client_message-asks :
      (sql : String) (h : SessionHooks GatewayState) (n : ℕ) (p : Pump GatewayState)
      → client_message (gateway lib now g) env (query sql) (listening h n p)
        ≡ (query_phase (gateway lib now g) env (query sql)
              >>= upstream_phase (gateway lib now g) env (some sql))
            (listening h n p)
  unfolding client_message recovery_phase cycle_sql_of gets pure ◌>>=◌
  client_message-asks sql h n p =
      ap
        (λ r.
          continue r.0
            (λ (_ : Unit {0}).
              query_phase (gateway lib now g) env (query sql)
              >>= upstream_phase (gateway lib now g) env (some sql))
            r.1)
        (local_query sql (listening h n p))

  push_recent-newest :
      (r : CycleReport) (recent : List CycleReport)
      → push_recent r recent ≡ newest (recent ++ r ∷ [])
  unfolding push_recent
  push_recent-newest r recent = elim (Bool-cases (ltb 128 (length (recent ++ r ∷ [])))) [
    | inl e ↦ rw e refl
    | inr e ↦
        let nothing : length (recent ++ r ∷ []) - 128 ≡ 0 = ground (arith, e) in
        rw e (sym (ap (λ n. drop n (recent ++ r ∷ [])) nothing))
  ]

  on_cycle_end-denial :
      (sql : String) (s : GatewayState)
      → on_cycle_end lib (denial_report g sql 0) s ≡ noted_denial (denial_report g sql 0) s
  unfolding on_cycle_end record_cycle denial_report
  on_cycle_end-denial sql s =
      ap
        (λ recent. record (noted_denial (denial_report g sql 0) s) {
          audit = record ((noted_denial (denial_report g sql 0) s).audit) { recent = recent };
        })
        (push_recent-newest (denial_report g sql 0) s.audit.recent)

  -- A query that a pattern of the deny list matches is answered with the list's error and a
  -- ReadyForQuery, and the cycle is reported to the audit and in the list of reports with that error.
  -- Nothing else happens: no shard and no endpoint is asked, nothing is written to a server, and the
  -- health of the endpoints, the lease and the statements stay. The client takes both messages.
  pub client_message-denies :
      (sql : String) (h : SessionHooks GatewayState) (n : ℕ) (p : Pump GatewayState)
      → any_match lib.is_match g.denied.patterns sql ≡ true
      → let q = client_message (gateway lib now g) env (query sql) (listening h n p) in
        (q.0 ≡ skip)
        × (q.1.down.sent
            ≡ (p.down.sent ++ error_response (denial g) ∷ [])
              ++ ready_for_query (lease_status p.lease) ∷ [])
        × (Option.map (λ k. k.ctx) q.1.hooks ≡ some (noted_denial (denial_report g sql 0) h.ctx))
        × (q.1.lease ≡ p.lease)
        × (q.1.checkouts ≡ p.checkouts)
        × (q.1.released ≡ p.released)
        × (q.1.registry ≡ p.registry)
  unfolding client_message recovery_phase denied start_cycle change_cycle end_denied send try_send
      send_ready_at_lease send_ready_for_query end_cycle end_hooks report_of start from_info gets
      modify pure next_iteration gateway ◌>>=◌
  client_message-denies sql h n p e =
      let instant : p.now - p.now ≡ 0 = omega arith in
      let whole =
        client_message-asks sql h n p
        ∙ ap (λ r. continue r.0 (upstream_phase (gateway lib now g) env (some sql)) r.1)
            (asked_denied sql h (listening h n p) e) in
      (
        ap (λ q. q.0) whole,
        ap (λ q. q.1.down.sent) whole,
        ap (λ q. Option.map (λ k. k.ctx) q.1.hooks) whole
            ∙ ap (λ t. some (on_cycle_end lib (denial_report g sql t) h.ctx)) instant
            ∙ ap some (on_cycle_end-denial sql h.ctx),
        ap (λ q. q.1.lease) whole,
        ap (λ q. q.1.checkouts) whole,
        ap (λ q. q.1.released) whole,
        ap (λ q. q.1.registry) whole,
      )
