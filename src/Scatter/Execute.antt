-- ===== src/Scatter/Execute.antt =====
-- `execute_scatter` of crates/pgferry/src/scatter.rs over the state of a session. All pooled legs
-- have checked a connection out before the first of them completes.
use Prim.Native.Nat.{zero, suc}
use pgferry.Prelude.{
  ℕ, ◌+◌, ◌%◌, String, Option, none, some, List, [], ◌∷◌, ◌++◌, Bool, true, false, ◌||◌,
  if◌then◌else◌, str_eq, length, is_some,
}
use pgferry.Wire.{
  ErrorInfo, Message, unknown_scatter_endpoint, shard_failed, sum_not_numeric, client_lost,
  BackendMessage,
}
use pgferry.Config.{endpoint}
use pgferry.Intercept.{ScatterLeg, ScatterRequest, concat, sum}
use pgferry.Pool.{UpstreamLease, fetch_add}
use pgferry.Session.{Downstream, Release, detached, destroyed, dropped, given, Pump, Env}
use pgferry.Session.Effects.{try_send}
use pgferry.Scatter.{Collected, LegOutcome, run_leg_pooled, run_query_collect}
use pgferry.Scatter.Merge.{merged_concat, merged_sum}

-- The merged row count, or the error for the client and whether the session's lease broke.
pub data Scattered : Type 0 where
  merged : ℕ → Scattered
  failed : ErrorInfo → Bool → Scattered

abbrev pub scatter_error : String → Message → ErrorInfo
scatter_error code m = record { severity = "ERROR"; code = code; message = m }

unfoldable pub first_unknown : Env → List ScatterLeg → Option String
first_unknown env [] = none
first_unknown env (leg ∷ legs) = elim (endpoint env.route leg.endpoint) [
  | none ↦ some leg.endpoint
  | some e ↦ first_unknown env legs
]

-- The first leg on the session's own endpoint runs on the session's lease; the others are pooled.
unfoldable pub partition : Option String → List ScatterLeg → Option ScatterLeg × List ScatterLeg
partition none legs = (none, legs)
partition (some ep) [] = (none, [])
partition (some ep) (leg ∷ legs) =
    let (mine, rest) = partition (some ep) legs in
    if str_eq ep leg.endpoint then (some leg, legs) else (mine, leg ∷ rest)

abbrev pub session_endpoint : {Ctx : Type 0} → Pump Ctx → Option String
session_endpoint p = if is_some p.lease then p.current_endpoint else none

unfoldable pub run_legs : Env → ℕ → List ScatterLeg → List LegOutcome
unfolding run_leg_pooled
run_legs env n [] = []
run_legs env n (leg ∷ legs) =
    run_leg_pooled env.simple_query env.startup_parameters leg.endpoint leg.sql
      (env.checkout n leg.endpoint)
    ∷ run_legs env (n + 1) legs

-- The leases that these checkouts gave, and others.
unfoldable pub given_legs : Env → ℕ → List ScatterLeg → List UpstreamLease → List UpstreamLease
given_legs env n [] ls = ls
given_legs env n (leg ∷ legs) ls =
    given (env.checkout n leg.endpoint) (given_legs env (n + 1) legs ls)

-- The item at a position, and the others; the last one where the position is past the end.
unfoldable pub pick {ℓ} : {A : Type ℓ} → ℕ → A → List A → A × List A
pick n x [] = (x, [])
pick zero x (y ∷ ys) = (x, y ∷ ys)
pick (suc n) x (y ∷ ys) = let (z, zs) = pick n y ys in (z, x ∷ zs)

-- The order of completion. The fuel is the number of legs.
unfoldable pub arrange {ℓ} : {A : Type ℓ} → (ℕ → ℕ) → ℕ → List A → List A
unfolding pick
arrange next zero xs = []
arrange next (suc fuel) [] = []
arrange next (suc fuel) (x ∷ xs) =
    let (y, ys) = pick (next (suc (length xs)) % suc (length xs)) x xs in y ∷ arrange next fuel ys

-- The outcomes before the first failure, its error, and the outcomes from it on.
pub record Gathered : Type 0 where
  pub complete : List LegOutcome
  pub error : Option ErrorInfo
  pub lost : List LegOutcome

abbrev error_or : Option ErrorInfo → String → ErrorInfo
error_or none ep = scatter_error "08006" (shard_failed ep)
error_or (some e) ep = e

unfoldable pub gather : List LegOutcome → Gathered
gather [] = record { complete = []; error = none; lost = [] }
gather (o ∷ os) =
    let rest = gather os in
    if is_some o.error || o.conn_broken
    then record { complete = []; error = some (error_or o.error o.endpoint); lost = o ∷ os }
    else record rest { complete = o ∷ rest.complete }

-- What becomes of leases without a checkin: a broken leg destroyed its own, all else is dropped.
unfoldable pub release_failed : LegOutcome → List Release
release_failed o = elim o.lease [
  | some l ↦ dropped l ∷ []
  | none ↦ elim o.taken [ none ↦ [] | some l ↦ destroyed l ∷ [] ]
]

abbrev pub drop_taken : LegOutcome → List Release
drop_taken o = elim o.taken [ none ↦ [] | some l ↦ dropped l ∷ [] ]

abbrev pub drop_left : LegOutcome → List Release
drop_left o = elim o.lease [ none ↦ [] | some l ↦ dropped l ∷ [] ]

abbrev pub detach_left : LegOutcome → List Release
detach_left o = elim o.lease [ none ↦ [] | some l ↦ detached l o.dirty ∷ [] ]

unfoldable pub for_each : (LegOutcome → List Release) → List LegOutcome → List Release
for_each f [] = []
for_each f (o ∷ os) = f o ++ for_each f os

unfoldable pub release_lost : List LegOutcome → List Release
unfolding release_failed for_each
release_lost [] = []
release_lost (o ∷ os) = release_failed o ++ for_each drop_taken os

abbrev pub released_too : {Ctx : Type 0} → List Release → Pump Ctx → Pump Ctx
released_too rs p = record p { released = rs ++ p.released }

unfoldable pub send_each : List BackendMessage → Downstream → Bool × Downstream
unfolding try_send
send_each [] d = (true, d)
send_each (m ∷ ms) d = elim (try_send m d) [ none ↦ (false, d) | some d' ↦ send_each ms d' ]

abbrev pub all_messages : List LegOutcome → List BackendMessage
all_messages [] = []
all_messages (o ∷ os) = o.messages ++ all_messages os

abbrev pub all_rows : List LegOutcome → ℕ
all_rows [] = 0
all_rows (o ∷ os) = fetch_add o.rows (all_rows os)

-- `none` is the failure of a `Sum` merge.
unfoldable pub merge_all : ScatterRequest → ℕ → List BackendMessage → Option (List BackendMessage)
unfolding merged_concat merged_sum
merge_all request rows ms = elim request.merge [
  | concat ↦ some (merged_concat request.tag rows ms)
  | sum ↦ merged_sum request.tag ms
]

abbrev merged_rows : ScatterRequest → ℕ → ℕ
merged_rows request rows = elim request.merge [ concat ↦ rows | sum ↦ 1 ]

module _ {Ctx : Type 0} where
  -- Merge, send, and give the pooled legs' connections back.
  unfoldable pub deliver :
      ScatterRequest → ℕ → List BackendMessage → List LegOutcome → Pump Ctx → Scattered × Pump Ctx
  unfolding merge_all send_each for_each
  deliver request rows ms complete p = elim (merge_all request rows ms) [
    | none ↦ (
      failed (scatter_error "0A000" sum_not_numeric) false,
      released_too (for_each drop_left complete) p,
    )
    | some out ↦
        let (sent, d) = send_each out p.down in
        if sent
        then (
          merged (merged_rows request rows),
          released_too (for_each detach_left complete) (record p { down = d }),
        )
        else (
          failed (scatter_error "08006" client_lost) false,
          released_too (for_each drop_left complete) (record p { down = d }),
        )
  ]

  -- The leg on the session's lease has run.
  unfoldable pub after_session_leg :
      ScatterRequest
      → ScatterLeg
      → UpstreamLease
      → Collected
      → List LegOutcome
      → Pump Ctx
      → Scattered × Pump Ctx
  unfolding deliver
  after_session_leg request leg l r complete p =
      let p' = record p { lease = some (record l { conn = r.conn }) } in
      if r.conn_broken
      then (
        failed (error_or r.error leg.endpoint) true,
        released_too (for_each drop_left complete) p',
      )
      else elim r.error [
        | some e ↦ (failed e false, released_too (for_each detach_left complete) p')
        | none ↦
            deliver request (fetch_add r.rows (all_rows complete))
              (r.messages ++ all_messages complete) complete p'
      ]

  unfoldable pub leg_on_lease :
      ScatterRequest
      → ScatterLeg
      → Option UpstreamLease
      → List LegOutcome
      → Pump Ctx
      → Scattered × Pump Ctx
  unfolding deliver after_session_leg run_query_collect
  leg_on_lease request leg none complete p =
      deliver request (all_rows complete) (all_messages complete) complete p
  leg_on_lease request leg (some l) complete p =
      after_session_leg request leg l (run_query_collect leg.sql l.conn) complete p

  unfoldable pub run_session_leg :
      ScatterRequest → Option ScatterLeg → List LegOutcome → Pump Ctx → Scattered × Pump Ctx
  unfolding deliver leg_on_lease
  run_session_leg request none complete p =
      deliver request (all_rows complete) (all_messages complete) complete p
  run_session_leg request (some leg) complete p = leg_on_lease request leg p.lease complete p

  unfoldable pub after_pooled_legs :
      ScatterRequest → Option ScatterLeg → Gathered → Pump Ctx → Scattered × Pump Ctx
  unfolding run_session_leg release_lost
  after_pooled_legs request mine g p = elim g.error [
    | some e ↦ (
      failed e false,
      released_too (for_each detach_left g.complete) (released_too (release_lost g.lost) p),
    )
    | none ↦ run_session_leg request mine g.complete p
  ]

  unfoldable pub scatter_legs :
      Env → ScatterRequest → Option ScatterLeg × List ScatterLeg → Pump Ctx → Scattered × Pump Ctx
  unfolding run_legs given_legs arrange gather after_pooled_legs
  scatter_legs env request (mine, pooled) p =
      let outcomes = run_legs env p.checkouts pooled in
      after_pooled_legs request mine (gather (arrange env.next_leg (length outcomes) outcomes))
        (record p {
          checkouts = p.checkouts + length pooled;
          granted = given_legs env p.checkouts pooled p.granted;
        })

  unfoldable pub scatter_valid :
      Option String → Env → ScatterRequest → Pump Ctx → Scattered × Pump Ctx
  unfolding partition scatter_legs
  scatter_valid (some ep) env request p =
      (failed (scatter_error "0A000" (unknown_scatter_endpoint ep)) false, p)
  scatter_valid none env request p =
      scatter_legs env request (partition (session_endpoint p) request.legs) p

  unfoldable pub execute_scatter : Env → ScatterRequest → Pump Ctx → Scattered × Pump Ctx
  unfolding first_unknown scatter_valid
  execute_scatter env request p = scatter_valid (first_unknown env request.legs) env request p
