-- ===== src/Session/Server.antt =====
-- The upstream arm of `pump` (crates/pgferry/src/session.rs): hygiene tracking, the row phase, the raw
-- hook, forwarding, the end of a cycle, detach, and failover when the connection is lost.
use pgferry.Prelude.{
  ℕ, ◌-◌, ◌^◌, Option, none, some, List, [], ◌∷◌, ◌++◌, Bool, true, false, not, ◌&&◌, ◌||◌, ltb,
  if◌then◌else◌, insert,
}
use pgferry.Prelude.Decimal.{print, rsplit_space, all_digits, parse_below}
use pgferry.Wire.{
  TransactionStatus, BackendMessage, ready_for_query, parameter_status, error_response,
  row_description, data_row, command_complete, copy_in_response, copy_out_response,
  copy_both_response, DataRow,
}
use pgferry.Conn.{set_parameter_cache}
use pgferry.Intercept.{Action, RowAction, from_info, Interceptor}
use pgferry.Intercept.Rows
use pgferry.Intercept.Rows.{DataRowMut}
use pgferry.Pool.{UpstreamLease, CopyCleanup, fetch_add}
use pgferry.Session.{SessionHooks, Pump}
use pgferry.Session.Effects.{M, ok}

-- `adjust_tag`: `dropped` fewer rows in a tag that ends in a count.
unfoldable pub adjust_tag : List ℕ → ℕ → List ℕ
unfolding rsplit_space all_digits parse_below print
adjust_tag tag dropped = elim (rsplit_space tag) [
  | none ↦ tag
  | some (head, []) ↦ tag
  | some (head, c ∷ cs) ↦
      if all_digits (c ∷ cs)
      then elim (parse_below (2 ^ 64) (c ∷ cs)) [
        | some n ↦ head ++ 32 ∷ print (n - dropped)
        | none ↦ head ++ 32 ∷ print (0 - dropped)
      ]
      else tag
]

abbrev pub with_status : TransactionStatus → UpstreamLease → UpstreamLease
with_status s l = record l { conn = record (l.conn) { status = s } }

module _ {Ctx : Type 0} where
  abbrev set_copy : CopyCleanup → Pump Ctx → Pump Ctx
  set_copy c p = record p { hygiene = record (p.hygiene) { copy = c } }

  -- What a message says about the connection, of which `l` is the lease.
  unfoldable pub track : Bool → UpstreamLease → BackendMessage → Pump Ctx → Pump Ctx
  track transaction_mode l (ready_for_query s) p = record p {
    lease = some (with_status s l);
    down = record (p.down) { status = s };
    hygiene = record { awaiting_response = false; copy = CopyCleanup.no_copy };
    fed_since_rfq = 0;
  }
  track transaction_mode l (parameter_status n v) p = record p {
    lease = some (record l { conn = set_parameter_cache n v l.conn });
    guc_overrides = insert n v p.guc_overrides;
    lease_dirty = p.lease_dirty || transaction_mode;
  }
  track transaction_mode l copy_in_response p = set_copy CopyCleanup.client_owes_copy p
  track transaction_mode l copy_both_response p = set_copy CopyCleanup.client_owes_copy p
  track transaction_mode l copy_out_response p = set_copy CopyCleanup.server_streams_copy p
  track transaction_mode l m p = p

-- What the row phase leaves: the message, and whether its row is dropped.
abbrev pub Phased : Type 0 → Type 0
Phased Ctx = SessionHooks Ctx × BackendMessage × Bool

module _ {Ctx : Type 0} (ic : Interceptor Ctx) where
  -- Schema, tag and error of the cycle.
  unfoldable pub observe : BackendMessage → SessionHooks Ctx → SessionHooks Ctx
  observe (row_description cs) h = if ic.wants_rows then record h { schema = cs } else h
  observe (command_complete tag) h = record h { cycle = record (h.cycle) { tag = some tag } }
  observe (error_response e) h = record h {
    cycle = record (h.cycle) { error = some (from_info e) };
  }
  observe m h = h

  abbrev count_row : SessionHooks Ctx → SessionHooks Ctx
  count_row h = record h { cycle = record (h.cycle) { rows = fetch_add h.cycle.rows 1 } }

  abbrev count_dropped : SessionHooks Ctx → SessionHooks Ctx
  count_dropped h =
      let c = h.cycle in
      record h {
        cycle = record c {
          dropped_total = fetch_add c.dropped_total 1;
          dropped_pending = fetch_add c.dropped_pending 1;
        };
      }

  unfoldable pub after_row : RowAction → DataRowMut → SessionHooks Ctx → Phased Ctx
  after_row RowAction.keep row h = (count_row h, data_row (Rows.apply row), false)
  after_row RowAction.drop row h = (count_dropped h, data_row (row.row), true)

  unfoldable pub row_phase : DataRow → SessionHooks Ctx → Phased Ctx
  unfolding after_row
  row_phase d h =
      if not ic.wants_rows then (count_row h, data_row d, false) else elim (Rows.parse d) [
        | none ↦ (count_row h, data_row d, false)
        | some row ↦
            let (ctx', row', action) = ic.on_row h.ctx h.schema row in
            after_row action row' (record h { ctx = ctx' })
      ]

  unfoldable pub tag_phase : List ℕ → SessionHooks Ctx → Phased Ctx
  unfolding adjust_tag
  tag_phase tag h =
      let pending = h.cycle.dropped_pending in
      (
        record h { cycle = record (h.cycle) { dropped_pending = 0 } },
        command_complete
            (if ic.adjust_command_counts && ltb 0 pending then adjust_tag tag pending else tag),
        false,
      )

  -- The schema, telemetry and row phase.
  unfoldable pub hook_phase : BackendMessage → SessionHooks Ctx → Phased Ctx
  unfolding observe row_phase tag_phase
  hook_phase (data_row d) h = row_phase d h
  hook_phase (command_complete tag) h = tag_phase tag (observe (command_complete tag) h)
  hook_phase m h = (observe m h, m, false)

  unfoldable pub phase_message :
      BackendMessage → Option (SessionHooks Ctx) → M Ctx (BackendMessage × Bool)
  unfolding hook_phase
  phase_message m none p = (ok (m, false), p)
  phase_message m (some h) p =
      let (h', m', is_dropped) = hook_phase m h in
      (ok (m', is_dropped), record p { hooks = some h' })

  unfoldable pub call_on_backend :
      BackendMessage → Option (SessionHooks Ctx) → M Ctx (BackendMessage × Action)
  call_on_backend m none p = (ok (m, Action.forward), p)
  call_on_backend m (some h) p =
      let (ctx', m', action) = ic.on_backend h.ctx m in
      (ok (m', action), record p { hooks = some (record h { ctx = ctx' }) })
