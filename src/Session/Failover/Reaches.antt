-- ===== src/Session/Failover/Reaches.antt =====
-- The attempts of `ensure_attached` (crates/pgferry/src/session.rs) are enough for `FailoverRouter`
-- (crates/pgferry/src/routing.rs) to reach the first endpoint that can be connected to.
use Prim.Native.Nat.{zero, suc}
use mathlib.Core.List.{append_assoc}
use pgferry.Prelude.{
  ℕ, ◌+◌, ◌*◌, ◌≤◌, ◌<◌, ◌≡◌, refl, sym, ap, ◌∙◌, inl, inr, String, Option, none, some, List, [],
  ◌∷◌, ◌++◌, Bool, true, false, arith, is_some, length, length-append, str_eq, eq_iff, Bool-cases,
}
use pgferry.Config.{EndpointConfig, find_endpoint}
use pgferry.Conn.{Conn}
use pgferry.Pool.{UpstreamLease}
use pgferry.Pool.Parameters.{sync_startup_parameters}
use pgferry.Routing
use pgferry.Routing.{
  from_endpoints, EndpointGroup, alive, is_alive, select_first_alive, report_failure,
}
use pgferry.Routing.Failover.{select_first_alive-first}
use pgferry.Routing.Kill.{
  Fresh, AllDown, AllKnown, AllDown-dead, AllDown-snoc, AllDown-once, AllDown-twice, AllKnown-twice,
  Fresh-alive, Fresh-new, AllKnown-new, lookup-twice, twice-others, is_alive-once,
}
use pgferry.Routing.Router.{failover_router}
use pgferry.Session.{SessionHooks, Pump, Env, leased, refused}
use pgferry.Session.Effects.{Out, ok}
use pgferry.Session.Attach.{attach_loop, ensure_attached, attempts}
use pgferry.Session.Failover.{mid, served, loop-refused, loop-serves, find_endpoint-member}

-- Every checkout on the endpoint fails.
abbrev pub Refuses : Env → EndpointConfig → Type 0
Refuses env e = (n : ℕ) → (error : String) × (env.checkout n e.id ≡ refused error)

abbrev pub AllRefuse : Env → List EndpointConfig → Type 0
AllRefuse env [] = Unit {0}
AllRefuse env (e ∷ es) = Refuses env e × AllRefuse env es

-- Every checkout on the endpoint yields a connection that takes the session's startup parameters.
abbrev pub Serves : Env → EndpointConfig → Type 0
Serves env e =
    (n : ℕ)
    → (l : UpstreamLease) × (d : Conn) × (env.checkout n e.id ≡ leased l)
      × (sync_startup_parameters env.simple_query env.startup_parameters l.conn ≡ some d)

Refuses-Serves :
    (env : Env) (x e : EndpointConfig) → Refuses env x → Serves env e → str_eq e.id x.id ≡ false
Refuses-Serves env x e r s = elim (Bool-cases (str_eq e.id x.id)) [
  | inl same ↦
      let (error, a) = r 0 in
      let (l, d, b, _) = s 0 in
      let clash : refused error ≡ leased l =
        sym a ∙ ap (env.checkout 0) (sym ((eq_iff e.id x.id).0 same)) ∙ b in
      cc clash
  | inr other ↦ other
]

module _ (env : Env) (now : ℕ) (sql : Option String) (p : Pump EndpointGroup)
    (h : SessionHooks EndpointGroup) (e : EndpointConfig) (below : List EndpointConfig)
    (serves : Serves env e) (reg : p.registry ≡ []) (gucs : p.guc_overrides ≡ []) where
  -- Attached to `e`, with at most `c` checkouts asked for before.
  abbrev Reached : ℕ → Out Bool × Pump EndpointGroup → Type 0
  Reached c r =
      (g : EndpointGroup) × (n : ℕ) × (l : UpstreamLease) × (d : Conn) × (env.checkout n e.id
        ≡ leased l)
      × (n ≤ c)
      × (r ≡ (ok true, served env now sql p h g (n + 1) e.id l d))

  -- The endpoint after those that are down is asked next.
  selects :
      (g : EndpointGroup) (gone : List EndpointConfig) (x : EndpointConfig)
      (rest : List EndpointConfig)
      → env.route.endpoints ≡ gone ++ x ∷ rest
      → 0 < g.revive_after
      → AllDown now g gone
      → is_alive now x.id g ≡ true
      → select_first_alive now env.route.endpoints g ≡ some x.id
  selects g gone x rest eps r ds a =
      ap (λ es. select_first_alive now es g) eps
      ∙ select_first_alive-first now gone x rest g (AllDown-dead now g gone r ds) a

  finds :
      (gone : List EndpointConfig) (x : EndpointConfig) (rest : List EndpointConfig)
      → env.route.endpoints ≡ gone ++ x ∷ rest
      → (x' : EndpointConfig) × (find_endpoint x.id env.route.endpoints ≡ some x') × (x'.id ≡ x.id)
  finds gone x rest eps =
      let (x', found, same) = find_endpoint-member gone x rest in
      (x', ap (find_endpoint x.id) eps ∙ found, same)

  -- An endpoint without a failure that refuses is down after two attempts.
  kills :
      (n c : ℕ) (g : EndpointGroup) (gone : List EndpointConfig) (x : EndpointConfig)
      (rest : List EndpointConfig)
      → env.route.endpoints ≡ gone ++ x ∷ rest
      → g.failure_threshold ≡ 2
      → 0 < g.revive_after
      → AllDown now g gone
      → Fresh g x
      → Refuses env x
      → attach_loop (failover_router now) env (suc (suc n)) sql (mid env now sql p h g c)
        ≡ attach_loop
            (failover_router now)
            env
            n
            sql
            (mid env now sql p h (report_failure now x.id (report_failure now x.id g)) (c + 1 + 1))
  unfolding report_failure
  kills n c g gone x rest eps two r ds fx rx =
      let once = report_failure now x.id g in
      let (x', found, same) = finds gone x rest eps in
      let (error₁, refused₁) = rx c in
      let (error₂, refused₂) = rx (c + 1) in
      let select₁ = selects g gone x rest eps r ds (Fresh-alive now g x fx) in
      let select₂ =
        selects once gone x rest eps r (AllDown-once now x g fx two gone ds)
          (is_alive-once now x g fx two) in
      loop-refused env now sql p h (suc n) g c x.id error₁ x' select₁ found same refused₁
      ∙ loop-refused env now sql p h n once (c + 1) x.id error₂ x' select₂ found same refused₂

  reaches :
      (n c : ℕ) (g : EndpointGroup) (gone rest : List EndpointConfig)
      → env.route.endpoints ≡ gone ++ (rest ++ e ∷ below)
      → g.failure_threshold ≡ 2
      → 0 < g.revive_after
      → AllDown now g gone
      → AllKnown now g rest
      → AllRefuse env rest
      → Fresh g e
      → 2 * length rest < n
      → Reached
          (c + 2 * length rest)
          (attach_loop (failover_router now) env n sql (mid env now sql p h g c))
  unfolding report_failure
  reaches zero c g gone rest eps two r ds ks rs f b = absurd (omega (arith, b))
  reaches (suc n) c g gone [] eps two r ds ks rs f b =
      let (l, d, gives, syncs) = serves c in
      let (e', found, same) = finds gone e below eps in
      let select = selects g gone e below eps r ds (Fresh-alive now g e f) in
      (
        g,
        c,
        l,
        d,
        gives,
        omega arith,
        loop-serves env now sql p h n g c e.id e' l d select found same gives syncs reg gucs,
      )
  reaches (suc zero) c g gone (x ∷ rest) eps two r ds ks rs f b = absurd (omega (arith, b))
  reaches (suc (suc n)) c g gone (x ∷ rest) eps two r ds (inr d, ks) (rx, rs) f b =
      let (g', k, l, d, gives, less, ends) =
        reaches (suc (suc n)) c g (gone ++ x ∷ []) rest
          (eps ∙ sym (append_assoc gone (x ∷ []) (rest ++ e ∷ below))) two r
          (AllDown-snoc now g gone x ds d) ks rs f (omega (arith, b)) in
      (g', k, l, d, gives, omega (arith, less), ends)
  reaches (suc (suc n)) c g gone (x ∷ rest) eps two r ds (inl fx, ks) (rx, rs) f b =
      let twice = report_failure now x.id (report_failure now x.id g) in
      let (g', k, l, d, gives, less, ends) =
        reaches n (c + 1 + 1) twice (gone ++ x ∷ []) rest
          (eps ∙ sym (append_assoc gone (x ∷ []) (rest ++ e ∷ below))) two r
          (AllDown-snoc now twice gone x (AllDown-twice now x g fx two gone ds)
            (lookup-twice now x.id g fx two))
          (AllKnown-twice now x g fx two rest ks) rs
          (twice-others now x.id g fx two e.id (Refuses-Serves env x e rx serves) ∙ f)
          (omega (arith, b)) in
      (
        g',
        k,
        l,
        d,
        gives,
        omega (arith, less),
        kills n c g gone x (rest ++ e ∷ below) eps two r ds fx rx ∙ ends,
      )

  loops :
      {A : Type 0} (o : Option UpstreamLease) (x y : A)
      → o ≡ none
      → elim o [ some l ↦ x | none ↦ y ] ≡ y
  loops none x y h = refl
  loops (some l) x y h = cc

  -- A first attach that the failover router routes, with the group of a new route (no failure so
  -- far), where every endpoint in front of `e` refuses and `e` serves, at one instant: the session
  -- is attached to `e`, after at most two checkouts for each endpoint in front of it and one more.
  pub ensure_attached-fails_over :
      (c : ℕ) (above : List EndpointConfig)
      → env.route.endpoints ≡ above ++ e ∷ below
      → AllRefuse env above
      → p.lease ≡ none
      → let r =
          ensure_attached
            (failover_router now)
            env
            sql
            (mid env now sql p h (from_endpoints env.route.endpoints) c) in
        (r.0 ≡ ok true)
        × (is_some r.1.lease ≡ true)
        × (r.1.current_endpoint ≡ some e.id)
        × (r.1.checkouts ≤ c + 2 * length above + 1)
  unfolding ensure_attached from_endpoints Routing.new
  ensure_attached-fails_over c above eps rs detached =
      let (g', k, l, d, gives, less, ends) =
        reaches (attempts (failover_router now) env) c (from_endpoints env.route.endpoints) [] above
          eps refl (omega arith) tt (AllKnown-new now [] above (e ∷ below) env.route.endpoints eps)
          rs (Fresh-new above e below env.route.endpoints eps)
          (omega (arith, ap length eps, length-append above (e ∷ below))) in
      let start = mid env now sql p h (from_endpoints env.route.endpoints) c in
      let whole : ensure_attached (failover_router now) env sql start
          ≡ (ok true, served env now sql p h g' (k + 1) e.id l d) =
        loops p.lease _ _ detached ∙ ends in
      (
        ap (λ q. q.0) whole,
        ap (λ q. is_some q.1.lease) whole,
        ap (λ q. q.1.current_endpoint) whole,
        omega (arith, less, ap (λ q. q.1.checkouts) whole),
      )
