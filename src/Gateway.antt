-- ===== src/Gateway.antt =====
-- The gateway of crates/pgferry/examples/gateway.rs: an interceptor made of the built-in helpers, a
-- read/write split and a set of shards. Its health group (which the split shares), its audit and its
-- list of reports sit behind locks that all sessions share; here they are the context of one
-- session, at an instant `now`. Regular expressions, Unicode's lower case and whether bytes are
-- UTF-8 are given.
pub mod Masking
pub mod Asking
pub mod Rewriting
pub mod Options
pub mod Main
use pgferry.Prelude.{
  ℕ, String, Option, none, some, List, [], ◌∷◌, ◌++◌, Bool, true, false, ◌||◌, if◌then◌else◌,
  is_some,
}
use pgferry.Wire.{ErrorInfo}
use pgferry.Prelude.Text.{codes, utf8, trim_start, strip_prefix}
use pgferry.Config.{EndpointConfig}
use pgferry.Intercept.{
  Action, forward, deny, MergePolicy, RoutingInfo, RetryDecision, UpstreamError, QueryCycle,
  set_sql, CycleReport, RowAction, keep, RowSchema, column_index, Interceptor, noop, endpoint_of,
  default_endpoint,
}
use pgferry.Intercept.Builtin.{DenyList, Rewrite, Audit, check, rewrite, record_cycle}
use pgferry.Intercept.Rows.{DataRowMut, Edited, edited, refused, set_text}
use pgferry.Intercept.Rows.Columns.{Read, value, unreadable, text}
use pgferry.Routing.{EndpointGroup, select_first_alive, report_failure, report_success}
use pgferry.Routing.Router.{id_or}
use pgferry.Routing.Split.{RwSplit, route, route_sql}
use pgferry.Scatter.Shards.{ShardSet, broadcast}

-- What the gateway is given when it is built, and does not change.
pub record Gateway (Regex : Type 0) : Type 0 where
  pub denied : DenyList Regex
  pub rewrites : List (Rewrite Regex)
  pub mask_columns : List String
  pub rw_split : Option RwSplit
  pub shards : Option ShardSet
  pub shard_all : Option Regex

-- What its hooks change.
pub record GatewayState : Type 0 where
  pub group : EndpointGroup
  pub audit : Audit
  pub reports : List CycleReport

-- The crate `regex`, and what of the standard library is not written out here.
pub record Library (Regex : Type 0) : Type 0 where
  pub compile : List ℕ → Option Regex
  pub is_match : Regex → String → Bool
  pub replace_all : Regex → String → String → String
  pub to_lowercase : List ℕ → List ℕ
  pub is_utf8 : List ℕ → Bool

-- The text that masks a value.
abbrev pub stars : List ℕ
stars = utf8 "***"

abbrev pub edited_or : DataRowMut → Edited → DataRowMut
edited_or row (edited row') = row'
edited_or row (refused error) = row

-- One column of a row: a readable text is masked, NULL and what is not text stays.
abbrev pub mask_read : Read (Option (List ℕ)) → ℕ → DataRowMut → DataRowMut
unfolding set_text
mask_read (value (some _)) index row = edited_or row (set_text index stars row)
mask_read (value none) index row = row
mask_read (unreadable error) index row = row

unfoldable pub mask_at : (List ℕ → Bool) → ℕ → DataRowMut → DataRowMut
unfolding text set_text
mask_at is_utf8 index row = mask_read (text is_utf8 index row) index row

abbrev pub mask_found : (List ℕ → Bool) → Option ℕ → DataRowMut → DataRowMut
unfolding mask_at
mask_found is_utf8 none row = row
mask_found is_utf8 (some index) row = mask_at is_utf8 index row

unfoldable pub mask : (List ℕ → Bool) → List String → RowSchema → DataRowMut → DataRowMut
unfolding column_index mask_at
mask is_utf8 [] schema row = row
mask is_utf8 (name ∷ names) schema row =
    mask is_utf8 names schema (mask_found is_utf8 (column_index name schema) row)

module _ {Regex : Type 0} (lib : Library Regex) where
  abbrev pub rewritten : Option String → QueryCycle → QueryCycle
  unfolding set_sql
  rewritten none cycle = cycle
  rewritten (some sql) cycle = set_sql sql cycle

  -- The rewrites in turn, each on what the last one left.
  unfoldable pub rewrite_all : List (Rewrite Regex) → QueryCycle → QueryCycle
  unfolding rewrite
  rewrite_all [] cycle = cycle
  rewrite_all (w ∷ ws) cycle =
      rewrite_all ws (rewritten (rewrite lib.is_match lib.replace_all cycle.sql w) cycle)

  abbrev starts_with : List ℕ → List ℕ → Bool
  unfolding strip_prefix
  starts_with prefix cs = is_some (strip_prefix prefix cs)

  -- Counts and sums are added up, other answers are put together.
  unfoldable pub merge_of : String → MergePolicy
  unfolding trim_start strip_prefix
  merge_of sql =
      let lowered = lib.to_lowercase (trim_start (codes sql)) in
      if starts_with (codes "select count") lowered || starts_with (codes "select sum") lowered
      then MergePolicy.sum
      else MergePolicy.concat

  -- A query that the pattern matches is asked of every shard.
  unfoldable pub spread : Option ShardSet → Option Regex → String → Action
  unfolding broadcast merge_of
  spread none pattern sql = forward
  spread (some shards) none sql = forward
  spread (some shards) (some pattern) sql =
      if lib.is_match pattern sql
      then broadcast sql (merge_of sql) (utf8 "SELECT") shards
      else forward

  unfoldable pub rewrite_and_spread : Gateway Regex → QueryCycle → QueryCycle × Action
  unfolding rewrite_all spread
  rewrite_and_spread g cycle =
      let cycle' = rewrite_all g.rewrites cycle in (cycle', spread g.shards g.shard_all cycle'.sql)

  abbrev pub unless_denied : Option ErrorInfo → Gateway Regex → QueryCycle → QueryCycle × Action
  unfolding rewrite_and_spread
  unless_denied (some error) g cycle = (cycle, deny error)
  unless_denied none g cycle = rewrite_and_spread g cycle

  unfoldable pub on_query : Gateway Regex → QueryCycle → QueryCycle × Action
  unfolding check unless_denied
  on_query g cycle = unless_denied (check lib.is_match cycle.sql g.denied) g cycle

  -- The split reads the health that the hooks report.
  abbrev split_route : ℕ → RoutingInfo → RwSplit → String
  unfolding route route_sql
  split_route now info split = elim info.sql [
    | some sql ↦ route_sql now info.endpoints (codes sql) split
    | none ↦ route now info.endpoints false split
  ]

  unfoldable pub upstream : ℕ → Gateway Regex → GatewayState → RoutingInfo → String
  unfolding route route_sql select_first_alive default_endpoint
  upstream now g s info = elim g.rw_split [
    | some split ↦ split_route now info (record split { group = s.group })
    | none ↦ id_or (select_first_alive now info.endpoints s.group) (default_endpoint info)
  ]

  unfoldable pub on_upstream_error : ℕ → GatewayState → UpstreamError → GatewayState × RetryDecision
  unfolding report_failure endpoint_of
  on_upstream_error now s error =
      (record s { group = report_failure now (endpoint_of error) s.group }, RetryDecision.relink)

  unfoldable pub on_upstream_connected : GatewayState → String → GatewayState
  unfolding report_success
  on_upstream_connected s endpoint = record s { group = report_success endpoint s.group }

  unfoldable pub wants_rows : Gateway Regex → Bool
  wants_rows g = elim g.mask_columns [ [] ↦ false | _ ∷ _ ↦ true ]

  unfoldable pub on_row : Gateway Regex → RowSchema → DataRowMut → DataRowMut × RowAction
  unfolding mask
  on_row g schema row = (mask lib.is_utf8 g.mask_columns schema row, keep)

  unfoldable pub on_cycle_end : CycleReport → GatewayState → GatewayState
  unfolding record_cycle
  on_cycle_end report s = record s {
    audit = record_cycle report s.audit;
    reports = s.reports ++ report ∷ [];
  }

  -- `impl Interceptor for Gateway`: the rest are the trait's default methods.
  unfoldable pub gateway : ℕ → Gateway Regex → Interceptor GatewayState
  unfolding on_query upstream on_upstream_error on_upstream_connected wants_rows on_row on_cycle_end
      noop
  gateway now g = record noop {
    on_query = λ s cycle. let (cycle', action) = on_query g cycle in (s, cycle', action);
    upstream = λ s info. (s, upstream now g s info);
    on_upstream_error = on_upstream_error now;
    on_upstream_connected = on_upstream_connected;
    wants_rows = wants_rows g;
    on_row = λ s schema row. let (row', action) = on_row g schema row in (s, row', action);
    on_cycle_end = λ s report. on_cycle_end report s;
  }
