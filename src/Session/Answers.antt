-- ===== src/Session/Answers.antt =====
-- What single steps of a session (crates/pgferry/src/session.rs) do: adjusted command tags,
-- recovery after an injected error, detach, drain, and the answer for a lost upstream.
use pgferry.Prelude.{
  ℕ, suc, ◌-◌, ◌^◌, ◌<◌, ◌≡◌, refl, ◌≢◌, ◌∙◌, none, some, List, [], ◌∷◌, ◌++◌, Bool, true, false,
  not, ◌&&◌, ◌||◌, arith, if◌then◌else◌, str_eq,
}
use pgferry.Prelude.Decimal.{
  print, print-IsCons, IsCons, all_digits, all_digits-print, parse_below, parse_below-print,
  rsplit_space-append,
}
use pgferry.Wire.{
  TransactionStatus, is_idle, FrontendMessage, query, parse, bind, close, sync, terminate,
  ready_for_query,
}
use pgferry.Wire
use pgferry.Intercept.{Interceptor}
use pgferry.Pool.{UpstreamLease}
use pgferry.Session.{Release, client_gone, Pump, Env}
use pgferry.Session.Effects.{
  Out, ok, skip, stop, pure, next_iteration, break, gets, modify, try_send, send,
  send_ready_for_query, lease_status, end_cycle, end_cycle_if_active, ◌>>=◌,
}
use pgferry.Session.Actions.{send_ready_at_lease}
use pgferry.Session.Query.{recover, recovery_phase}
use pgferry.Session.Client.{client_message}
use pgferry.Session.Server.{with_status, adjust_tag, track, phase_message, call_on_backend}
use pgferry.Session.Relay.{
  server_message, relay_phased, act_on_backend, relay, after_ready, detach_if_idle,
}
use pgferry.Session.Events.{Event, from_client, on_client, handle, iterate, go_on, run}

-- How a session goes on after a ReadyForQuery of its server.
abbrev pub keeps_lease : Bool → Bool → TransactionStatus → Bool
keeps_lease draining mode s = draining || not (mode && is_idle s)

abbrev pub written : FrontendMessage → UpstreamLease → UpstreamLease
written m l = record l { conn = record (l.conn) { outgoing = l.conn.outgoing ++ m ∷ [] } }

-- The connection takes writes.
abbrev pub writable : UpstreamLease → UpstreamLease
writable l = record l { conn = record (l.conn) { writable = true } }

-- The name that a Parse asks for, where it is not the unnamed statement's.
abbrev pub named : FrontendMessage → Bool
named (parse (some name) sql oids) = not (str_eq name "")
named m = false

-- Neither of the two messages that recovery does not ignore.
abbrev pub AllIgnored : List FrontendMessage → Type 0
AllIgnored [] = Unit
AllIgnored (m ∷ ms) = (m ≢ sync) × (m ≢ terminate) × AllIgnored ms

-- Client messages that arrive at one instant.
abbrev pub batch : ℕ → List FrontendMessage → List (ℕ × Event)
batch now [] = []
batch now (m ∷ ms) = (now, from_client m) ∷ batch now ms

module _ {Ctx : Type 0} where
  -- A session without hooks that holds `l`, and whose client takes at least one more message.
  abbrev pub leasing : Bool → ℕ → UpstreamLease → Pump Ctx → Pump Ctx
  leasing draining r l p = record p {
    lease = some l;
    hooks = none;
    draining = draining;
    down = record (p.down) { room = suc r };
  }

adjust_tag-digits :
    (head ds : List ℕ) (n d : ℕ)
    → IsCons ds
    → all_digits ds ≡ true
    → parse_below (2 ^ 64) ds ≡ some n
    → adjust_tag (head ++ 32 ∷ ds) d ≡ head ++ 32 ∷ print (n - d)
unfolding adjust_tag
adjust_tag-digits head [] n d (c, rest, e) a h = cc
adjust_tag-digits head (c ∷ cs) n d k a h = ground (arith, rsplit_space-append head (c ∷ cs) a)

-- A command tag that ends in a row count below 2^64, such as `SELECT 5` or `INSERT 0 5`, reports
-- afterwards as many rows fewer as were dropped, and at least 0; the rest of the tag stays.
pub adjust_tag-print :
    (head : List ℕ) (n dropped : ℕ)
    → n < 2 ^ 64
    → adjust_tag (head ++ 32 ∷ print n) dropped ≡ head ++ 32 ∷ print (n - dropped)
adjust_tag-print head n dropped h =
    adjust_tag-digits head (print n) n dropped (print-IsCons n) (all_digits-print n)
      (parse_below-print (2 ^ 64) n h)

module _ {Ctx : Type 0} (ic : Interceptor Ctx) where
  recover-skips : (m : FrontendMessage) (p : Pump Ctx) → m ≢ sync → recover ic m p ≡ (skip, p)
  unfolding recover next_iteration
  recover-skips sync p ne = absurd (ne refl)
  recover-skips m p ne = refl

  recovery_phase-skips :
      (m : FrontendMessage) (p : Pump Ctx)
      → m ≢ sync
      → p.swallow_until_sync ≡ true
      → recovery_phase ic m p ≡ (skip, p)
  unfolding recovery_phase ◌>>=◌ gets
  recovery_phase-skips m p ne e = simp (e, recover-skips m p ne) refl

module _ {Ctx : Type 0} (ic : Interceptor Ctx) (env : Env) where
  client_message-skips :
      (m : FrontendMessage) (p : Pump Ctx)
      → m ≢ sync
      → p.swallow_until_sync ≡ true
      → client_message ic env m p ≡ (skip, p)
  unfolding client_message ◌>>=◌
  client_message-skips m p ne e = simp (recovery_phase-skips ic m p ne e) refl

  on_client-skips :
      (m : FrontendMessage) (p : Pump Ctx)
      → m ≢ sync
      → m ≢ terminate
      → p.swallow_until_sync ≡ true
      → on_client ic env m p ≡ (skip, p)
  unfolding on_client
  on_client-skips terminate p ne nt e = absurd (nt refl)
  on_client-skips m p ne nt e = client_message-skips _ p ne e

  go_on-skip :
      (es : List (ℕ × Event)) (p : Pump Ctx) (r : Out (Unit {0}) × Pump Ctx)
      → r ≡ (skip, p)
      → go_on ic env es (r.0) (r.1) ≡ run ic env es p
  unfolding go_on
  go_on-skip es p r e = rw e refl

  run-skips :
      (now : ℕ) (ms : List FrontendMessage) (es : List (ℕ × Event)) (p : Pump Ctx)
      → p.swallow_until_sync ≡ true
      → AllIgnored ms
      → run ic env (batch now ms ++ es) (record p { now = now })
        ≡ run ic env es (record p { now = now })
  unfolding run iterate handle go_on
  run-skips now [] es p e h = refl
  run-skips now (m ∷ ms) es p e (ns, nt, h) =
      let q = record p { now = now } in
      go_on-skip (batch now ms ++ es) q (on_client ic env m q) (on_client-skips m q ns nt e)
      ∙ run-skips now ms es p e h

  recovers :
      (now r : ℕ) (p : Pump Ctx)
      → p.swallow_until_sync ≡ true
      → p.down.room ≡ suc r
      → let q = run ic env ((now, from_client sync) ∷ []) (record p { now = now }) in
        (q.0 ≡ none)
        × (q.1.down.sent ≡ p.down.sent ++ ready_for_query (lease_status p.lease) ∷ [])
        × (q.1.swallow_until_sync ≡ false)
        × (q.1.lease ≡ p.lease)
  unfolding run iterate handle on_client client_message recovery_phase recover ◌>>=◌ gets modify
      send_ready_at_lease send_ready_for_query send try_send end_cycle next_iteration
  recovers now r p e f = ground arith

  -- After an error that the proxy injected into an extended-protocol cycle, every client message but
  -- Terminate is ignored up to the next Sync, and that Sync is answered by one ReadyForQuery, with
  -- the status of the leased connection (idle without one), where the client takes one more message:
  -- nothing else is sent, and the session goes on with the lease that it had.
  pub run-recovers :
      (now r : ℕ) (ms : List FrontendMessage) (p : Pump Ctx)
      → p.swallow_until_sync ≡ true
      → AllIgnored ms
      → p.down.room ≡ suc r
      → let q =
          run ic env (batch now ms ++ (now, from_client sync) ∷ []) (record p { now = now }) in
        (q.0 ≡ none)
        × (q.1.down.sent ≡ p.down.sent ++ ready_for_query (lease_status p.lease) ∷ [])
        × (q.1.swallow_until_sync ≡ false)
        × (q.1.lease ≡ p.lease)
  run-recovers now r ms p e h f =
      rw (run-skips now ms ((now, from_client sync) ∷ []) p e h) (recovers now r p e f)

module _ {Ctx : Type 0} (ic : Interceptor Ctx) where
  -- In a session without hooks a ReadyForQuery from the server is passed on to a client that takes
  -- one more message. Then a draining session ends, with its lease; else a session in transaction
  -- mode hands its lease back to the pool exactly when the server reports itself idle, marked as
  -- dirty if it was; any other session keeps it. Both go by this one answer: what the client has sent
  -- since, and the server has yet to answer, is not looked at.
  pub server_message-detaches :
      (draining mode : Bool) (s : TransactionStatus) (r : ℕ) (l : UpstreamLease) (p : Pump Ctx)
      → let q = server_message ic mode l (ready_for_query s) (leasing draining r l p) in
        (q.1.down.sent ≡ p.down.sent ++ ready_for_query s ∷ [])
        × (q.0 ≡ (if draining then stop client_gone else ok tt))
        × (q.1.lease ≡ (if keeps_lease draining mode s then some (with_status s l) else none))
        × (q.1.released ≡ (
            if keeps_lease draining mode s
            then p.released
            else Release.detached (with_status s l) p.lease_dirty ∷ p.released))
  unfolding server_message ◌>>=◌ gets modify track phase_message relay_phased call_on_backend
      act_on_backend relay send try_send end_cycle_if_active after_ready detach_if_idle break pure
  server_message-detaches true mode s r l p = (refl, refl, refl, refl)
  server_message-detaches false false s r l p = (refl, refl, refl, refl)
  server_message-detaches false true TransactionStatus.idle r l p = (refl, refl, refl, refl)
  server_message-detaches false true TransactionStatus.transaction r l p = (refl, refl, refl, refl)
  server_message-detaches false true TransactionStatus.failed r l p = (refl, refl, refl, refl)
