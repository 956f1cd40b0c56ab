-- ===== src/Session/Sound/Asking.antt =====
-- The client arm up to the `on_query` phase keeps the session's invariant.
use pgferry.Prelude.{
  String, ◌≡◌, Option, none, some, List, [], ◌∷◌, Bool, true, ◌||◌, is_none, arith, if◌then◌else◌,
  false, refl,
}
use pgferry.Wire.{ErrorInfo, FrontendMessage, query, sync, flush, BackendMessage}
use pgferry.Intercept.{Interceptor, Action, CycleKind, simple, extended, ScatterRequest}
use pgferry.Scatter.Execute.{Scattered, merged, failed}
use pgferry.Session.{Pump, Env, SessionHooks}
use pgferry.Session.Effects.{M, destroy_lease}
use pgferry.Session.Custody.{Custody, destroy_lease-Custody}
use pgferry.Session.Attach.{is_empty}
use pgferry.Session.Statements.{record_close}
use pgferry.Session.Actions.{
  reply_messages, end_simple, end_denied, denied, replied, scattered, run_scatter, scatter_unless,
  scatter_failed, scatter_merged, scatter_refusal, after_scatter,
}
use pgferry.Session.Query.{
  cycle_input_of, recover, recovery_phase, close_registered, answer_locally, local_phase,
  act_on_query, ask_interceptor, query_hook, query_input, query_phase,
}
use pgferry.Session.Triples.{
  Triple, Triple-pure, Triple-next, Triple-break, Triple-gets, Triple-modify, Triple-bind,
  Triple-send, Triple-if,
}
use pgferry.Session.Sound.{
  Inv, Inv-local, swallow-Inv, send_ready_for_query-local, set_down_status-local,
  change_cycle-local, start_cycle-local, send_ready_at_lease-local, end_cycle-local,
  end_cycle_if_active-local, is_empty-remove,
}
use pgferry.Session.Sound.Scattering.{execute_scatter-Inv}

abbrev pub Keeps : {Ctx A : Type 0} → M Ctx A → Type 0
Keeps m = Triple Inv Inv m (λ _. Inv)

-- The invariant but for `attached`, which the next action takes back.
abbrev Unattached : {Ctx : Type 0} → Pump Ctx → Type 0
Unattached p = ((is_none p.lease || (p.lease_dirty || is_empty p.registry)) ≡ true) × Custody p

destroy_if-Unattached :
    {Ctx : Type 0} (broken : Bool) (p : Pump Ctx)
    → Inv p
    → Unattached (if broken then destroy_lease p else p)
unfolding destroy_lease
destroy_if-Unattached true p (a, b, c) = (ground (arith, b), destroy_lease-Custody p c)
destroy_if-Unattached false p (a, b, c) = (b, c)

module _ {Ctx : Type 0} (ic : Interceptor Ctx) where
  end_simple-Keeps : (kind : CycleKind) → Keeps (end_simple ic kind)
  unfolding end_simple
  end_simple-Keeps simple = end_cycle-local ic Inv-local
  end_simple-Keeps (extended name) = swallow-Inv

  recover-Keeps : (m : FrontendMessage) → Keeps (recover ic m)
  unfolding recover
  recover-Keeps sync = Triple-bind (Triple-modify _ (λ p h. h)) λ _.
      Triple-bind (send_ready_at_lease-local Inv-local)
        λ _. Triple-bind (end_cycle-local ic Inv-local) λ _. Triple-next
  recover-Keeps (query sql) = Triple-next
  recover-Keeps m = Triple-next

  pub recovery_phase-Keeps : (m : FrontendMessage) → Keeps (recovery_phase ic m)
  unfolding recovery_phase
  recovery_phase-Keeps m =
      Triple-bind (Triple-gets _) λ b. Triple-if b _ _ (recover-Keeps m) (Triple-pure tt)

  close_registered-Inv :
      (name : Option String) (p : Pump Ctx) → Inv p → Inv (close_registered name p)
  unfolding record_close
  close_registered-Inv none p h = h
  close_registered-Inv (some name) p (a, b, c) =
      (a, ground (arith, b, is_empty-remove name p.registry), c)

  answer_locally-Keeps : (m : FrontendMessage) → Keeps (answer_locally ic m)
  unfolding answer_locally
  answer_locally-Keeps sync = Triple-bind (Triple-gets _) λ s.
      Triple-bind (send_ready_for_query-local Inv-local s)
        λ _. Triple-bind (end_cycle_if_active-local ic Inv-local) λ _. Triple-next
  answer_locally-Keeps flush = Triple-next
  answer_locally-Keeps (FrontendMessage.close name) =
      Triple-bind (Triple-modify _ (close_registered-Inv name))
        λ _. Triple-bind (Triple-send Inv-local _) λ _. Triple-next
  answer_locally-Keeps m = Triple-pure tt

  pub local_phase-Keeps : (mode : Bool) (m : FrontendMessage) → Keeps (local_phase ic mode m)
  unfolding local_phase
  local_phase-Keeps mode m =
      Triple-bind (Triple-gets _) λ b. Triple-if b _ _ (answer_locally-Keeps m) (Triple-pure tt)

  end_denied-Keeps : (kind : CycleKind) → Keeps (end_denied ic kind)
  unfolding end_denied
  end_denied-Keeps simple =
      Triple-bind (send_ready_at_lease-local Inv-local) λ _. end_cycle-local ic Inv-local
  end_denied-Keeps (extended name) = swallow-Inv

  denied-Keeps : (sql : String) (kind : CycleKind) (e : ErrorInfo) → Keeps (denied ic sql kind e)
  unfolding denied
  denied-Keeps sql kind e = Triple-bind (start_cycle-local Inv-local _ kind) λ _.
      Triple-bind (change_cycle-local Inv-local _) λ _.
        Triple-bind (Triple-send Inv-local _)
          λ _. Triple-bind (end_denied-Keeps kind) λ _. Triple-next

  reply_messages-Keeps : (ms : List BackendMessage) → Keeps {Ctx = Ctx} (reply_messages ms)
  unfolding reply_messages
  reply_messages-Keeps [] = Triple-pure tt
  reply_messages-Keeps (m ∷ ms) =
      Triple-bind (change_cycle-local Inv-local _)
        λ _. Triple-bind (Triple-send Inv-local m) λ _. reply_messages-Keeps ms

  replied-Keeps :
      (sql : String) (kind : CycleKind) (ms : List BackendMessage) → Keeps (replied ic sql kind ms)
  unfolding replied
  replied-Keeps sql kind ms = Triple-bind (start_cycle-local Inv-local _ kind) λ _.
      Triple-bind (reply_messages-Keeps ms) λ _.
        Triple-bind (send_ready_at_lease-local Inv-local)
          λ _. Triple-bind (end_simple-Keeps kind) λ _. Triple-next

  scatter_unless-Inv :
      (refusal : Option ErrorInfo) (env : Env) (r : ScatterRequest) (p : Pump Ctx)
      → Inv p
      → Inv (scatter_unless refusal env r p).1
  unfolding scatter_unless
  scatter_unless-Inv (some e) env r p h = h
  scatter_unless-Inv none env r p h = execute_scatter-Inv env r p h

  run_scatter-Keeps :
      (env : Env) (kind : CycleKind) (r : ScatterRequest)
      → Keeps {Ctx = Ctx} (run_scatter env kind r)
  unfolding run_scatter
  run_scatter-Keeps env kind r = record {
    at = λ p h. scatter_unless-Inv (scatter_refusal kind p.down.status) env r p h;
  }

  after_scatter-Keeps : (r : ScatterRequest) (s : Scattered) → Keeps (after_scatter ic r s)
  unfolding after_scatter scatter_merged scatter_failed destroy_lease
  after_scatter-Keeps r (merged rows) = Triple-bind (change_cycle-local Inv-local _) λ _.
      Triple-bind (Triple-gets _) λ s.
        Triple-bind (send_ready_for_query-local Inv-local s)
          λ _. Triple-bind (end_cycle-local ic Inv-local) λ _. Triple-next
  after_scatter-Keeps r (failed e broken) =
      Triple-bind (Triple-modify {Q = Unattached} _ (destroy_if-Unattached broken)) λ _.
        Triple-bind (Triple-modify _ (λ p h. (refl, h.0, h.1))) λ _.
          Triple-bind (change_cycle-local Inv-local _) λ _.
            Triple-bind (Triple-send Inv-local _) λ _.
              Triple-bind (send_ready_for_query-local Inv-local _) λ _.
                Triple-bind (set_down_status-local Inv-local _)
                  λ _. Triple-bind (end_cycle-local ic Inv-local) λ _. Triple-next

  scattered-Keeps :
      (env : Env) (sql : String) (kind : CycleKind) (r : ScatterRequest)
      → Keeps (scattered ic env sql kind r)
  unfolding scattered
  scattered-Keeps env sql kind r =
      Triple-bind (start_cycle-local Inv-local _ kind)
        λ _. Triple-bind (run_scatter-Keeps env kind r) λ s. after_scatter-Keeps r s

  act_on_query-Keeps :
      (env : Env) (m : FrontendMessage) (sql : String) (kind : CycleKind)
      (rewritten : Option String) (a : Action)
      → Keeps (act_on_query ic env m sql kind rewritten a)
  unfolding act_on_query
  act_on_query-Keeps env m sql kind rewritten Action.forward =
      Triple-bind (start_cycle-local Inv-local _ kind) λ _. Triple-pure _
  act_on_query-Keeps env m sql kind rewritten (Action.deny e) = denied-Keeps sql kind e
  act_on_query-Keeps env m sql kind rewritten (Action.scatter r) = scattered-Keeps env sql kind r
  act_on_query-Keeps env m sql kind rewritten (Action.reply ms) = replied-Keeps sql kind ms
  act_on_query-Keeps env m sql kind rewritten Action.close = Triple-break (λ e. cc e)

  ask_interceptor-Keeps :
      (sql : String) (kind : CycleKind) (k : SessionHooks Ctx)
      → Keeps (ask_interceptor ic sql kind k)
  unfolding ask_interceptor
  ask_interceptor-Keeps sql kind k = record { at = λ p h. h }

  query_hook-Keeps :
      (env : Env) (m : FrontendMessage) (sql : String) (kind : CycleKind)
      (k : Option (SessionHooks Ctx))
      → Keeps (query_hook ic env m sql kind k)
  unfolding query_hook
  query_hook-Keeps env m sql kind none = Triple-pure m
  query_hook-Keeps env m sql kind (some k) =
      Triple-bind (ask_interceptor-Keeps sql kind k) λ answer. act_on_query-Keeps env m sql kind _ _

  query_input-Keeps :
      (env : Env) (m : FrontendMessage) (input : Option (String × CycleKind))
      → Keeps (query_input ic env m input)
  unfolding query_input
  query_input-Keeps env m none = Triple-pure m
  query_input-Keeps env m (some (sql, kind)) =
      Triple-bind (Triple-modify _ (λ p h. h))
        λ _. Triple-bind (Triple-gets _) λ k. query_hook-Keeps env m sql kind k

  pub query_phase-Keeps : (env : Env) (m : FrontendMessage) → Keeps (query_phase ic env m)
  unfolding query_phase
  query_phase-Keeps env m = query_input-Keeps env m (cycle_input_of m)
