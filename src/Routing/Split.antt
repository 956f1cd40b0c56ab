-- ===== src/Routing/Split.antt =====
-- Read/write splitting (crates/pgferry/src/routing.rs): `RwSplit`, with the default classifier of SQL.
-- SQL is its code points.
pub mod Comments
pub mod Writes
use Prim.Native.Nat.{zero, suc}
use pgferry.Prelude.{
  ℕ, String, Option, none, some, List, [], ◌∷◌, Bool, true, false, not, ◌&&◌, ◌||◌, if◌then◌else◌,
  str_eq, length, ◌==◌,
}
use pgferry.Prelude.Text.{
  codes, is_whitespace, trim_start, strip_prefix, after_first, equal, to_ascii_uppercase,
}
use pgferry.Config.{EndpointConfig}
use pgferry.Routing.{EndpointGroup, is_alive}

pub data ReadPreference : Type 0 where
  primary_only replica_first : ReadPreference

pub record RwSplit : Type 0 where
  pub group : EndpointGroup
  pub primary : String
  pub preference : ReadPreference
  pub classifier : List ℕ → Bool

abbrev or_empty : Option (List ℕ) → List ℕ
or_empty none = []
or_empty (some cs) = cs

-- What is left of a line comment or a block comment behind its opening; all of it, when it does not end.
unfoldable pub after_comment : List ℕ → Option (List ℕ)
unfolding after_first strip_prefix
after_comment s = elim (strip_prefix (codes "--") s) [
  | some rest ↦ some (or_empty (after_first (codes "\n") rest))
  | none ↦ elim (strip_prefix (codes "/*") s) [
    | some rest ↦ some (or_empty (after_first (codes "*/") rest))
    | none ↦ none
  ]
]

-- The loop of `strip_comments`; the fuel is above the length.
unfoldable pub strip_loop : ℕ → List ℕ → List ℕ
strip_loop zero s = s
strip_loop (suc fuel) s = elim (after_comment s) [ some rest ↦ strip_loop fuel rest | none ↦ s ]

unfoldable pub strip_comments : List ℕ → List ℕ
unfolding strip_loop
strip_comments s = strip_loop (suc (length s)) s

abbrev pub is_separator : ℕ → Bool
is_separator c = is_whitespace c || c == b'('

-- The characters up to a separator.
unfoldable pub word : List ℕ → List ℕ
word [] = []
word (c ∷ cs) = let rest = word cs in if is_separator c then [] else c ∷ rest

-- `.split(..).find(|s| !s.is_empty()).unwrap_or_default()`.
unfoldable pub first_word : List ℕ → List ℕ
unfolding word
first_word [] = []
first_word (c ∷ cs) = let later = first_word cs in if is_separator c then later else word (c ∷ cs)

unfoldable pub is_read_word : List ℕ → Bool
unfolding equal
is_read_word w = equal w (codes "SELECT") || (equal w (codes "SHOW") || equal w (codes "TABLE"))

unfoldable pub default_is_read : List ℕ → Bool
unfolding trim_start strip_comments first_word to_ascii_uppercase is_read_word
default_is_read sql =
    is_read_word (to_ascii_uppercase (first_word (strip_comments (trim_start sql))))

unfoldable pub new : EndpointGroup → String → RwSplit
unfolding default_is_read
new group primary = record {
  group = group;
  primary = primary;
  preference = ReadPreference.replica_first;
  classifier = default_is_read;
}

unfoldable pub with_read_preference : ReadPreference → RwSplit → RwSplit
with_read_preference preference s = record s { preference = preference }

unfoldable pub with_classifier : (List ℕ → Bool) → RwSplit → RwSplit
with_classifier f s = record s { classifier = f }

-- The first alive endpoint other than the primary, else the primary.
unfoldable pub first_replica : ℕ → List EndpointConfig → RwSplit → String
unfolding is_alive
first_replica now [] s = s.primary
first_replica now (e ∷ es) s =
    let later = first_replica now es s in
    if not (str_eq e.id s.primary) && is_alive now e.id s.group then e.id else later

unfoldable pub route : ℕ → List EndpointConfig → Bool → RwSplit → String
unfolding first_replica
route now es is_read s = elim s.preference [
  | ReadPreference.primary_only ↦ s.primary
  | ReadPreference.replica_first ↦ if is_read then first_replica now es s else s.primary
]

unfoldable pub route_sql : ℕ → List EndpointConfig → List ℕ → RwSplit → String
unfolding route
route_sql now es sql s = route now es (s.classifier sql) s
