-- ===== src/Routing.antt =====
-- The health of endpoints (crates/pgferry/src/routing.rs): `EndpointGroup`. Time is an argument of
-- each operation; the map behind the lock is the state.
pub mod Failover
pub mod Router
pub mod Kill
pub mod Split
use pgferry.Prelude.{
  ℕ, ◌+◌, ◌-◌, ◌%◌, ◌^◌, String, Option, none, some, List, [], ◌∷◌, Bool, true, false, leb,
  if◌then◌else◌, insert, lookup,
}
use Prim.Native.Nat.{max}
use pgferry.Config.{EndpointConfig}
use pgferry.Pool.{seconds}

pub data Health : Type 0 where
  alive dead : ℕ → Health

pub record EndpointGroup : Type 0 where
  pub health : List (String × Health)
  pub failure_threshold : ℕ
  pub revive_after : ℕ

abbrev pub all_alive : List String → List (String × Health)
all_alive [] = []
all_alive (id ∷ ids) = insert id (alive 0) (all_alive ids)

unfoldable pub new : List String → EndpointGroup
new ids = record { health = all_alive ids; failure_threshold = 2; revive_after = seconds 30 }

abbrev pub ids_of : List EndpointConfig → List String
ids_of [] = []
ids_of (e ∷ es) = e.id ∷ ids_of es

unfoldable pub from_endpoints : List EndpointConfig → EndpointGroup
unfolding new
from_endpoints es = new (ids_of es)

unfoldable pub with_failure_threshold : ℕ → EndpointGroup → EndpointGroup
with_failure_threshold threshold g = record g { failure_threshold = max threshold 1 }

unfoldable pub with_revive_after : ℕ → EndpointGroup → EndpointGroup
with_revive_after after g = record g { revive_after = after }

unfoldable pub is_alive_at : ℕ → ℕ → Option Health → Bool
is_alive_at revive_after now none = true
is_alive_at revive_after now (some (alive failures)) = true
is_alive_at revive_after now (some (dead since)) = leb revive_after (now - since)

unfoldable pub is_alive : ℕ → String → EndpointGroup → Bool
unfolding is_alive_at
is_alive now id g = is_alive_at g.revive_after now (lookup id g.health)

-- One failure more, at `now`. A failure count has 32 bits.
unfoldable pub failed_once : ℕ → ℕ → Option Health → Health
failed_once threshold now (some (dead since)) = dead now
failed_once threshold now (some (alive failures)) =
    let count = (failures + 1) % 2 ^ 32 in if leb threshold count then dead now else alive count
failed_once threshold now none = if leb threshold 1 then dead now else alive 1

unfoldable pub report_failure : ℕ → String → EndpointGroup → EndpointGroup
unfolding failed_once
report_failure now id g = record g {
  health = insert id (failed_once g.failure_threshold now (lookup id g.health)) g.health;
}

unfoldable pub revived : Option Health → String → List (String × Health) → List (String × Health)
revived none id health = health
revived (some h) id health = insert id (alive 0) health

unfoldable pub report_success : String → EndpointGroup → EndpointGroup
unfolding revived
report_success id g = record g { health = revived (lookup id g.health) id g.health }

unfoldable pub select_first_alive : ℕ → List EndpointConfig → EndpointGroup → Option String
unfolding is_alive
select_first_alive now [] g = none
select_first_alive now (e ∷ es) g =
    let rest = select_first_alive now es g in if is_alive now e.id g then some e.id else rest
