-- ===== src/Routing/Router.antt =====
-- Selection policies of crates/pgferry/src/routing.rs: `EndpointGroup::select_round_robin`, and
-- `FailoverRouter`, the interceptor of a route with several endpoints. All sessions share its group;
-- here the group is the context of one session, at an instant `now`.
use pgferry.Prelude.{
  get_elem?, ℕ, ◌%◌, String, Option, none, some, List, [], ◌∷◌, if◌then◌else◌, length,
}
use pgferry.Config.{EndpointConfig}
use pgferry.Intercept.{Interceptor, RetryDecision, default_endpoint, endpoint_of, noop}
use pgferry.Routing.{EndpointGroup, is_alive, select_first_alive, report_failure, report_success}

unfoldable pub alive_endpoints : ℕ → List EndpointConfig → EndpointGroup → List EndpointConfig
alive_endpoints now [] g = []
alive_endpoints now (e ∷ es) g =
    let rest = alive_endpoints now es g in if is_alive now e.id g then e ∷ rest else rest

abbrev id_of : Option EndpointConfig → Option String
id_of none = none
id_of (some e) = some e.id

-- `nanos` is the sub-second part of the wall clock. The index is in range unless the list is empty.
unfoldable pub select_round_robin : ℕ → ℕ → List EndpointConfig → EndpointGroup → Option String
unfolding alive_endpoints get_elem?
select_round_robin now nanos es g = elim (alive_endpoints now es g) [
  | [] ↦ none
  | a ∷ others ↦ id_of (get_elem? (a ∷ others) (nanos % length (a ∷ others)))
]

abbrev pub id_or : Option String → String → String
id_or none id = id
id_or (some id) default = id

unfoldable pub failover_router : ℕ → Interceptor EndpointGroup
unfolding select_first_alive report_failure report_success default_endpoint endpoint_of noop
failover_router now = record noop {
  upstream = λ g info. (g, id_or (select_first_alive now info.endpoints g) (default_endpoint info));
  on_upstream_error = λ g error. (report_failure now (endpoint_of error) g, RetryDecision.relink);
  on_upstream_connected = λ g id. report_success id g;
}
