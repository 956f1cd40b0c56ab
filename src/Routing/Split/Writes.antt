-- ===== src/Routing/Split/Writes.antt =====
-- Where `RwSplit` (crates/pgferry/src/routing.rs) sends statements.
use pgferry.Prelude.{
  ℕ, ◌≡◌, refl, ◌⊎◌, inl, inr, String, List, [], ◌∷◌, ◌++◌, Bool, true, false, not, ◌&&◌, arith,
  str_eq, sym, subst, Bool-cases,
}
use pgferry.Config.{EndpointConfig}
use pgferry.Routing.{is_alive}
use pgferry.Routing.Split.{
  RwSplit, ReadPreference, primary_only, replica_first, first_replica, route, route_sql,
}

-- The endpoint is the primary, or dead.
abbrev pub Skipped : ℕ → RwSplit → List EndpointConfig → Type 0
Skipped now s [] = Unit {0}
Skipped now s (e ∷ es) =
    (not (str_eq e.id s.primary) && is_alive now e.id s.group ≡ false) × Skipped now s es

-- The first endpoint of the list that is alive and not the primary.
abbrev pub IsReplica : ℕ → RwSplit → List EndpointConfig → String → Type 0
IsReplica now s es id =
    (above : List EndpointConfig) × (e : EndpointConfig) × (below : List EndpointConfig) × (es
      ≡ above ++ e ∷ below)
    × Skipped now s above
    × (e.id ≡ id)
    × (str_eq id s.primary ≡ false)
    × (is_alive now id s.group ≡ true)

abbrev pub IsRead : ℕ → RwSplit → List EndpointConfig → String → Type 0
IsRead now s es id = ((id ≡ s.primary) × Skipped now s es) ⊎ IsReplica now s es id

later :
    (now : ℕ) (s : RwSplit) (e : EndpointConfig) (es : List EndpointConfig) (id : String)
    → not (str_eq e.id s.primary) && is_alive now e.id s.group ≡ false
    → IsRead now s es id
    → IsRead now s (e ∷ es) id
later now s e es id skip (inl (same, rest)) = inl (same, (skip, rest))
later now s e es id skip (inr (above, x, below, split, rest, same, other, a)) =
    inr (e ∷ above, x, below, cc split, (skip, rest), same, other, a)

abbrev eligible : ℕ → RwSplit → EndpointConfig → Bool
eligible now s e = not (str_eq e.id s.primary) && is_alive now e.id s.group

first_replica-here :
    (now : ℕ) (e : EndpointConfig) (es : List EndpointConfig) (s : RwSplit)
    → eligible now s e ≡ true
    → first_replica now (e ∷ es) s ≡ e.id
unfolding first_replica
first_replica-here now e es s h = rw h refl

first_replica-there :
    (now : ℕ) (e : EndpointConfig) (es : List EndpointConfig) (s : RwSplit)
    → eligible now s e ≡ false
    → first_replica now (e ∷ es) s ≡ first_replica now es s
unfolding first_replica
first_replica-there now e es s h = rw h refl

eligible-both :
    (now : ℕ) (s : RwSplit) (e : EndpointConfig)
    → eligible now s e ≡ true
    → (str_eq e.id s.primary ≡ false) × (is_alive now e.id s.group ≡ true)
eligible-both now s e h = ground (arith, h)

first_replica-IsRead :
    (now : ℕ) (es : List EndpointConfig) (s : RwSplit) → IsRead now s es (first_replica now es s)
unfolding first_replica
first_replica-IsRead now [] s = inl (refl, tt)
first_replica-IsRead now (e ∷ es) s = elim (Bool-cases (eligible now s e)) [
  | inl h ↦
      subst (IsRead now s (e ∷ es)) (sym (first_replica-here now e es s h))
        (inr ([], e, es, refl, tt, refl, (eligible-both now s e h).0, (eligible-both now s e h).1))
  | inr h ↦
      subst (IsRead now s (e ∷ es)) (sym (first_replica-there now e es s h))
        (later now s e es (first_replica now es s) h (first_replica-IsRead now es s))
]

Preference-cases : (p : ReadPreference) → (p ≡ primary_only) ⊎ (p ≡ replica_first)
Preference-cases primary_only = inl refl
Preference-cases replica_first = inr refl

route-reads :
    (now : ℕ) (es : List EndpointConfig) (s : RwSplit) (is_read : Bool)
    → is_read ≡ true
    → s.preference ≡ replica_first
    → route now es is_read s ≡ first_replica now es s
unfolding route
route-reads now es s is_read r first = rw (first, r) refl

-- Either the classifier does not call the statement a read, or the preference is `PrimaryOnly`, and
-- it goes to the primary; or it is a read under `ReplicaFirst`, and it goes to the first endpoint of
-- the route that is alive and not the primary, and to the primary only when every endpoint is dead or
-- is the primary.
pub route_sql-splits :
    (now : ℕ) (es : List EndpointConfig) (sql : List ℕ) (s : RwSplit)
    → (((s.classifier sql ≡ false) ⊎ (s.preference ≡ primary_only))
        × (route_sql now es sql s ≡ s.primary))
      ⊎ ((s.classifier sql ≡ true)
          × (s.preference ≡ replica_first)
          × IsRead now s es (route_sql now es sql s))
unfolding route_sql route
route_sql-splits now es sql s = elim (Preference-cases s.preference) [
  | inl only ↦ inl (inr only, rw only refl)
  | inr first ↦ elim (Bool-cases (s.classifier sql)) [
    | inl r ↦ inr (
      r,
      first,
      subst (IsRead now s es) (sym (route-reads now es s (s.classifier sql) r first))
          (first_replica-IsRead now es s),
    )
    | inr w ↦ inl (inl w, rw (first, w) refl)
  ]
]
