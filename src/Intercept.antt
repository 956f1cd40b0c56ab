-- ===== src/Intercept.antt =====
-- The interceptor API of crates/pgferry/src/intercept.rs: what the hooks are shown and what they
-- answer. A hook is a function of the per-session context and of what it may mutate, and returns
-- both. The request of a scatter is that of crates/pgferry/src/scatter.rs.
pub mod Rows
pub mod Builtin
use pgferry.Prelude.{
  ℕ, suc, String, Option, none, some, List, [], ◌∷◌, Bool, true, false, if◌then◌else◌, map, str_eq,
}
use pgferry.Wire.{ErrorInfo, Message, ColumnMeta, FrontendMessage, BackendMessage}
use pgferry.Config.{EndpointConfig}
use Rows.{DataRowMut}

pub data MergePolicy : Type 0 where
  concat sum : MergePolicy

pub record ScatterLeg : Type 0 where
  pub endpoint : String
  pub sql : String

pub record ScatterRequest : Type 0 where
  pub legs : List ScatterLeg
  pub merge : MergePolicy
  pub tag : List ℕ

pub data Action : Type 0 where
  forward : Action
  reply : List BackendMessage → Action
  deny : ErrorInfo → Action
  scatter : ScatterRequest → Action
  close : Action

pub data RowAction : Type 0 where
  keep drop : RowAction

pub record RoutingInfo : Type 0 where
  pub endpoints : List EndpointConfig
  pub user : String
  pub database : Option String
  pub sql : Option String

unfoldable pub default_endpoint : RoutingInfo → String
default_endpoint info = elim info.endpoints [ [] ↦ "" | e ∷ _ ↦ e.id ]

pub data UpstreamError : Type 0 where
  connect connection_lost : String → String → UpstreamError

unfoldable pub endpoint_of : UpstreamError → String
endpoint_of (connect endpoint message) = endpoint
endpoint_of (connection_lost endpoint message) = endpoint

pub data RetryDecision : Type 0 where
  relink close : RetryDecision

pub data CycleKind : Type 0 where
  simple : CycleKind
  extended : Option String → CycleKind

pub record QueryCycle : Type 0 where
  pub sql : String
  pub kind : CycleKind
  pub rewritten : Bool

unfoldable pub new_cycle : String → CycleKind → QueryCycle
new_cycle sql kind = record { sql = sql; kind = kind; rewritten = false }

unfoldable pub set_sql : String → QueryCycle → QueryCycle
set_sql sql c = record c { sql = sql; rewritten = true }

unfoldable pub take_rewritten : QueryCycle → Option String
take_rewritten c = if c.rewritten then some c.sql else none

pub record CycleError : Type 0 where
  pub code : String
  pub message : Message

unfoldable pub from_info : ErrorInfo → CycleError
from_info info = record { code = info.code; message = info.message }

pub record CycleReport : Type 0 where
  pub sql : Option String
  pub kind : CycleKind
  pub tag : Option (List ℕ)
  pub rows : ℕ
  pub rows_dropped : ℕ
  pub error : Option CycleError
  pub latency : ℕ

-- `RowSchema`: the columns of the current `RowDescription`.
abbrev pub RowSchema : Type 0
RowSchema = List ColumnMeta

-- `RowSchema::column_index`: the first column of that name, counted from `i`.
unfoldable pub column_index_from : ℕ → String → RowSchema → Option ℕ
column_index_from i name [] = none
column_index_from i name (c ∷ cs) =
    let later = column_index_from (suc i) name cs in if str_eq c.name name then some i else later

unfoldable pub column_index : String → RowSchema → Option ℕ
unfolding column_index_from
column_index name schema = column_index_from 0 name schema

-- The trait `Interceptor`, for one type of context.
pub record Interceptor (Ctx : Type 0) : Type 0 where
  pub on_query : Ctx → QueryCycle → Ctx × QueryCycle × Action
  pub on_frontend : Ctx → FrontendMessage → Ctx × FrontendMessage × Action
  pub on_backend : Ctx → BackendMessage → Ctx × BackendMessage × Action
  pub on_row : Ctx → RowSchema → DataRowMut → Ctx × DataRowMut × RowAction
  pub wants_rows : Bool
  pub adjust_command_counts : Bool
  pub on_cycle_end : Ctx → CycleReport → Ctx
  pub upstream : Ctx → RoutingInfo → Ctx × String
  pub on_upstream_error : Ctx → UpstreamError → Ctx × RetryDecision
  pub on_upstream_connected : Ctx → String → Ctx

-- The trait's default methods, which are all of `NoopInterceptor`.
unfoldable pub noop : {Ctx : Type 0} → Interceptor Ctx
unfolding default_endpoint
noop = record {
  on_query = λ ctx cycle. (ctx, cycle, forward);
  on_frontend = λ ctx m. (ctx, m, forward);
  on_backend = λ ctx m. (ctx, m, forward);
  on_row = λ ctx schema row. (ctx, row, keep);
  wants_rows = false;
  adjust_command_counts = false;
  on_cycle_end = λ ctx report. ctx;
  upstream = λ ctx info. (ctx, default_endpoint info);
  on_upstream_error = λ ctx error. (ctx, relink);
  on_upstream_connected = λ ctx endpoint. ctx;
}
