-- ===== src/Scatter/Shards.antt =====
-- The shards of crates/pgferry/src/scatter.rs: `ShardSet`. The hash of a key (`DefaultHasher`, 64 bits)
-- is given.
use Prim.Native.Nat.{zero, suc}
use pgferry.Prelude.{
  get_elem?, ℕ, ◌%◌, ◌≡◌, refl, ◌<◌, String, Option, none, some, List, [], ◌∷◌, map, arith, length,
}
use pgferry.Config.{EndpointConfig, endpoint}
use pgferry.Intercept.{Action, scatter, MergePolicy, ScatterLeg}
use pgferry.Scatter.Execute.{first_unknown}
use pgferry.Session.{Env}

pub record ShardSet : Type 0 where
  pub shards : List String

-- `none` is the panic on a set without shards.
unfoldable pub shard_for : (String → ℕ) → String → ShardSet → Option String
unfolding get_elem?
shard_for hash key s = get_elem? s.shards (hash key % length s.shards)

abbrev pub leg_for : String → String → ScatterLeg
leg_for sql shard = record { endpoint = shard; sql = sql }

unfoldable pub broadcast : String → MergePolicy → List ℕ → ShardSet → Action
broadcast sql merge tag s =
    scatter (record { legs = map (leg_for sql) s.shards; merge = merge; tag = tag })

-- Every shard is an endpoint of the route.
abbrev pub AllRouted : Env → List String → Type 0
AllRouted env [] = Unit {0}
AllRouted env (s ∷ ss) = ((e : EndpointConfig) × (endpoint env.route s ≡ some e)) × AllRouted env ss

first_unknown-broadcast :
    (env : Env) (sql : String) (ss : List String)
    → AllRouted env ss
    → first_unknown env (map (leg_for sql) ss) ≡ none
unfolding first_unknown
first_unknown-broadcast env sql [] r = refl
first_unknown-broadcast env sql (s ∷ ss) ((e, found), r) =
    rw (first_unknown, found) (first_unknown-broadcast env sql ss r)

get_elem?-AllRouted :
    (env : Env) (ss : List String) (i : ℕ)
    → i < length ss
    → AllRouted env ss
    → (s : String) × (get_elem? ss i ≡ some s)
      × ((e : EndpointConfig) × (endpoint env.route s ≡ some e))
unfolding get_elem?
get_elem?-AllRouted env [] i b r = absurd (omega (arith, b))
get_elem?-AllRouted env (s ∷ ss) zero b (found, r) = (s, refl, found)
get_elem?-AllRouted env (s ∷ ss) (suc i) b (found, r) =
    get_elem?-AllRouted env ss i (omega (arith, b)) r

-- A set of shards that the route has: every key is given to an endpoint of the route, and a broadcast
-- is a scatter whose legs are all known, one for each shard, in order.
pub broadcast-known :
    (env : Env) (hash : String → ℕ) (key sql : String) (merge : MergePolicy) (tag : List ℕ)
    (s : ShardSet)
    → 0 < length s.shards
    → AllRouted env s.shards
    → let legs = map (leg_for sql) s.shards in
      ((shard : String) × (shard_for hash key s ≡ some shard)
        × ((e : EndpointConfig) × (endpoint env.route shard ≡ some e)))
      × (broadcast sql merge tag s ≡ scatter (record { legs = legs; merge = merge; tag = tag }))
      × (first_unknown env legs ≡ none)
unfolding shard_for broadcast
broadcast-known env hash key sql merge tag s b r =
    let inside : hash key % length s.shards < length s.shards = omega (arith, b) in
    (
      get_elem?-AllRouted env s.shards (hash key % length s.shards) inside r,
      refl,
      first_unknown-broadcast env sql s.shards r,
    )
