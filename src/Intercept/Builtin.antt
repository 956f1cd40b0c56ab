-- ===== src/Intercept/Builtin.antt =====
-- The helpers of crates/pgferry/src/intercept/builtin.rs: `DenyList`, `Rewrite`, `Audit`. Regular
-- expressions are the crate `regex`'s: `Regex` and its operations are given.
pub mod Recent
use Prim.Native.Nat.{zero, suc}
use pgferry.Prelude.{
  drop, ℕ, ◌+◌, ◌-◌, ◌/◌, ◌%◌, ◌^◌, String, Option, none, some, List, [], ◌∷◌, ◌++◌, Bool, true,
  false, ◌||◌, if◌then◌else◌, is_some, length, ltb,
}
use pgferry.Prelude.Text.{codes}
use pgferry.Wire.{ErrorInfo, remote}
use pgferry.Intercept.{CycleReport}
use pgferry.Pool.{fetch_add}

pub record DenyList (Regex : Type 0) : Type 0 where
  pub patterns : List Regex
  pub code : String
  pub message : String

pub record Rewrite (Regex : Type 0) : Type 0 where
  pub pattern : Regex
  pub replacement : String

module _ {Regex : Type 0} where
  abbrev add_compiled : Option Regex → Option (List Regex) → Option (List Regex)
  add_compiled (some r) (some rs) = some (r ∷ rs)
  add_compiled _ _ = none

  -- `Regex::new` of each pattern, anchored; `none` when one is no regular expression.
  unfoldable pub compile_all : (List ℕ → Option Regex) → List (List ℕ) → Option (List Regex)
  compile_all compile [] = some []
  compile_all compile (p ∷ ps) =
      add_compiled (compile (codes "(?is)^" ++ p)) (compile_all compile ps)

  -- `none` is the panic of `expect`.
  unfoldable pub deny_list : (List ℕ → Option Regex) → List (List ℕ) → Option (DenyList Regex)
  unfolding compile_all
  deny_list compile patterns = elim (compile_all compile patterns) [
    | none ↦ none
    | some rs ↦ some (record {
      patterns = rs;
      code = "42501";
      message = "insufficient privilege (pgferry deny-list)";
    })
  ]

  unfoldable pub with_message : String → String → DenyList Regex → DenyList Regex
  with_message code message d = record d { code = code; message = message }

  unfoldable pub any_match : (Regex → String → Bool) → List Regex → String → Bool
  any_match is_match [] sql = false
  any_match is_match (r ∷ rs) sql = is_match r sql || any_match is_match rs sql

  unfoldable pub check : (Regex → String → Bool) → String → DenyList Regex → Option ErrorInfo
  unfolding any_match
  check is_match sql d =
      if any_match is_match d.patterns sql
      then some (record { severity = "ERROR"; code = d.code; message = remote d.message })
      else none

  unfoldable pub rewrite_with : (List ℕ → Option Regex) → List ℕ → String → Option (Rewrite Regex)
  rewrite_with compile pattern replacement = elim (compile pattern) [
    | none ↦ none
    | some r ↦ some (record { pattern = r; replacement = replacement })
  ]

  unfoldable pub rewrite :
      (Regex → String → Bool)
      → (Regex → String → String → String)
      → String
      → Rewrite Regex
      → Option String
  rewrite is_match replace_all sql w =
      if is_match w.pattern sql then some (replace_all w.pattern sql w.replacement) else none

-- The counters of 64 bits, and the latest reports, the last one at the end.
pub record Audit : Type 0 where
  pub cycles : ℕ
  pub errors : ℕ
  pub rows : ℕ
  pub latency_total_us : ℕ
  pub recent : List CycleReport

unfoldable pub new_audit : Audit
new_audit = record { cycles = 0; errors = 0; rows = 0; latency_total_us = 0; recent = [] }

-- At most 128 reports are kept; a latency is in nanoseconds.
unfoldable pub push_recent : CycleReport → List CycleReport → List CycleReport
push_recent report recent =
    let pushed = recent ++ report ∷ [] in
    if ltb 128 (length pushed) then drop (length pushed - 128) pushed else pushed

unfoldable pub record_cycle : CycleReport → Audit → Audit
unfolding push_recent
record_cycle report a = record {
  cycles = fetch_add a.cycles 1;
  errors = if is_some report.error then fetch_add a.errors 1 else a.errors;
  rows = fetch_add a.rows report.rows;
  latency_total_us = fetch_add a.latency_total_us (report.latency / 1000 % 2 ^ 64);
  recent = push_recent report a.recent;
}
