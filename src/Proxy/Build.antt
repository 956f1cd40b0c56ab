-- ===== src/Proxy/Build.antt =====
-- What a `ProxyBuilder` of crates/pgferry/src/proxy.rs builds from endpoints that are added one by one.
use pgferry.Prelude.{
  ◌≡◌, refl, sym, ap, ◌∙◌, String, none, some, List, [], ◌∷◌, ◌++◌, false, length, ltb, str_eq,
  if◌then◌else◌,
}
use mathlib.Core.List.{append_assoc, append-nil}
use pgferry.Config.{EndpointConfig}
use pgferry.Routing.{from_endpoints}
use pgferry.Proxy.{
  Proxy, ProxyBuilder, failover, ok, named, default_route, builder, endpoint, build, installed,
  configured,
}

-- `endpoint` for each of the pairs of a name and a connection string, in order.
abbrev pub with_endpoints :
    {Addr Service : Type 0}
    → List (String × String)
    → ProxyBuilder Addr Service
    → ProxyBuilder Addr Service
with_endpoints [] b = b
with_endpoints ((id, connstring) ∷ more) b = with_endpoints more (endpoint id connstring b)

abbrev pub named_all : List (String × String) → List EndpointConfig
named_all [] = []
named_all ((id, connstring) ∷ more) = named id connstring ∷ named_all more

abbrev pub with_route :
    {Addr Service : Type 0}
    → List EndpointConfig
    → ProxyBuilder Addr Service
    → ProxyBuilder Addr Service
with_route es b = record b { route = some (default_route es) }

module _ {Addr Service : Type 0} where
  endpoint-behind :
      (id connstring : String) (e : EndpointConfig) (es : List EndpointConfig)
      (b : ProxyBuilder Addr Service)
      → str_eq e.id "default" ≡ false
      → endpoint id connstring (with_route (e ∷ es) b)
        ≡ with_route (e ∷ (es ++ named id connstring ∷ [])) b
  unfolding endpoint
  endpoint-behind id connstring e [] b h = rw h refl
  endpoint-behind id connstring e (_ ∷ _) b h = refl

  pub with_endpoints-behind :
      (more : List (String × String)) (e : EndpointConfig) (es : List EndpointConfig)
      (b : ProxyBuilder Addr Service)
      → str_eq e.id "default" ≡ false
      → with_endpoints more (with_route (e ∷ es) b) ≡ with_route (e ∷ (es ++ named_all more)) b
  with_endpoints-behind [] e es b h = ap (λ rest. with_route (e ∷ rest) b) (sym (append-nil es))
  with_endpoints-behind ((id, connstring) ∷ more) e es b h =
      ap (with_endpoints more) (endpoint-behind id connstring e es b h)
      ∙ with_endpoints-behind more e (es ++ named id connstring ∷ []) b h
      ∙ ap (λ rest. with_route (e ∷ rest) b)
          (append_assoc es (named id connstring ∷ []) (named_all more))

  abbrev pub listening : Addr → ProxyBuilder Addr Service
  unfolding builder
  listening addr = record builder { listen_addr = some addr }

  first_endpoint :
      (addr : Addr) (id connstring : String)
      → endpoint id connstring (listening addr)
        ≡ with_route (named id connstring ∷ []) (listening addr)
  unfolding endpoint builder
  first_endpoint addr id connstring = refl

  built : (es : List EndpointConfig) (addr : Addr) → Proxy Addr Service
  built es addr =
      let b = with_route es (listening addr) in
      record {
        config = configured b addr (default_route es);
        interceptor = installed none (some (default_route es));
      }

  build-built :
      (es : List EndpointConfig) (addr : Addr)
      → build (with_route es (listening addr)) ≡ ok (built es addr)
  unfolding build builder built
  build-built es addr = refl

  -- Endpoints added one by one to a new builder that listens, the first under a name other than
  -- `default`: the proxy that is built listens there and has a route of exactly these endpoints, in
  -- this order. It routes by failover over them when there are two or more, and has no interceptor
  -- when there is one; at most 128 clients are served.
  build-routes :
      (addr : Addr) (id connstring : String) (more : List (String × String))
      → str_eq id "default" ≡ false
      → let es = named_all ((id, connstring) ∷ more) in
        (proxy : Proxy Addr Service) × (build
            (with_endpoints ((id, connstring) ∷ more) (listening addr))
          ≡ ok proxy)
        × (proxy.config.listen_addr ≡ addr)
        × (proxy.config.route.endpoints ≡ es)
        × (proxy.config.max_client_conn ≡ 128)
        × (proxy.interceptor
            ≡ (if ltb 1 (length es) then some (failover (from_endpoints es)) else none))
  unfolding build installed configured builder built
  build-routes addr id connstring more h =
      let es = named_all ((id, connstring) ∷ more) in
      let whole =
        ap (with_endpoints more) (first_endpoint addr id connstring)
        ∙ with_endpoints-behind more (named id connstring) [] (listening addr) h in
      (built es addr, ap build whole ∙ build-built es addr, refl, refl, refl, refl)
