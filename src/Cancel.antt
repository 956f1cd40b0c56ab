-- ===== src/Cancel.antt =====
-- Cancel requests (crates/pgferry/src/cancel.rs): `CancelRouter`. The map is from a virtual
-- `(pid, secret_key)` to the session's channel, whose one slot is empty or holds a signal. A session
-- takes the signal with `recv`.
pub mod Signals
use pgferry.Prelude.{
  ℕ, String, Option, none, some, List, [], ◌∷◌, Bool, true, false, ◌&&◌, if◌then◌else◌, ◌==◌,
}
use pgferry.Prelude.Text.{equal}

-- A process id of 32 bits, and the bytes of the secret key.
pub record Key : Type 0 where
  pub pid : ℕ
  pub secret_key : List ℕ

unfoldable pub key_eq : Key → Key → Bool
unfolding equal
key_eq a b = a.pid == b.pid && equal a.secret_key b.secret_key

-- Whether the slot of each session's channel holds a signal.
abbrev pub SessionMap : Type 0
SessionMap = List (Key × Bool)

unfoldable pub get : Key → SessionMap → Option Bool
unfolding key_eq
get k [] = none
get k (e ∷ es) = let rest = get k es in if key_eq k (e.0) then some (e.1) else rest

unfoldable pub insert : Key → Bool → SessionMap → SessionMap
unfolding key_eq
insert k signal [] = (k, signal) ∷ []
insert k signal (e ∷ es) =
    let others = insert k signal es in if key_eq k (e.0) then (k, signal) ∷ es else e ∷ others

unfoldable pub remove : Key → SessionMap → SessionMap
unfolding key_eq
remove k [] = []
remove k (e ∷ es) = let others = remove k es in if key_eq k (e.0) then others else e ∷ others

-- The new channel is empty; a channel that was there is dropped.
unfoldable pub register : Key → SessionMap → SessionMap
unfolding insert
register k = insert k false

-- `try_send` leaves a full slot as it is.
unfoldable pub cancel : Key → SessionMap → Bool × SessionMap
unfolding get insert
cancel k es = elim (get k es) [ some signal ↦ (true, insert k true es) | none ↦ (false, es) ]

unfoldable pub unregister : Key → SessionMap → SessionMap
unfolding remove
unregister k = remove k

-- The session takes the signal of its channel, if there is one.
unfoldable pub recv : Key → SessionMap → Bool × SessionMap
unfolding get insert
recv k es = elim (get k es) [ some signal ↦ (signal, insert k false es) | none ↦ (false, es) ]
