-- ===== src/Runtime.antt =====
-- The registry of live sessions (crates/pgferry/src/runtime.rs): `RuntimeState`. The list behind the
-- lock and the counter are the state; dropping a `SessionGuard` is `unregister` of its pid.
pub mod Live
use pgferry.Prelude.{ℕ, String, List, [], ◌∷◌, ◌++◌, Bool, if◌then◌else◌, ◌==◌, length}
use pgferry.Pool.{fetch_add}

-- A virtual session id has 32 bits; `started` is in nanoseconds.
pub record SessionInfo : Type 0 where
  pub pid : ℕ
  pub addr : String
  pub user : String
  pub database : String
  pub is_admin : Bool
  pub attached : Bool
  pub started : ℕ

pub record RuntimeState : Type 0 where
  pub sessions : List SessionInfo
  pub sessions_total : ℕ

unfoldable pub new : RuntimeState
new = record { sessions = []; sessions_total = 0 }

unfoldable pub register : SessionInfo → RuntimeState → RuntimeState
register info s = record s {
  sessions = s.sessions ++ info ∷ [];
  sessions_total = fetch_add s.sessions_total 1;
}

unfoldable pub sessions_active : RuntimeState → ℕ
sessions_active s = length s.sessions

-- `sessions.retain(|s| s.pid != pid)`.
unfoldable pub without : ℕ → List SessionInfo → List SessionInfo
without pid [] = []
without pid (s ∷ ss) = let rest = without pid ss in if s.pid == pid then rest else s ∷ rest

unfoldable pub unregister : ℕ → RuntimeState → RuntimeState
unfolding without
unregister pid s = record s { sessions = without pid s.sessions }
