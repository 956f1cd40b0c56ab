-- ===== src/Examples/Routes.antt =====
-- Two endpoints, and their health after the first one has failed.
use pgferry.Prelude.{none, [], ◌∷◌}
use pgferry.Config.{EndpointConfig}
use pgferry.Routing
use pgferry.Routing.{
  alive, dead, EndpointGroup, is_alive, is_alive_at, report_failure, failed_once,
  select_first_alive,
}

abbrev pub primary : EndpointConfig
primary = record { id = "primary"; upstream = "127.0.0.1:5432"; password = none; tls = none }

abbrev pub replica : EndpointConfig
replica = record { id = "replica"; upstream = "127.0.0.1:5433"; password = none; tls = none }

abbrev group : EndpointGroup
group = Routing.new ("primary" ∷ "replica" ∷ [])

abbrev pub failed_over : EndpointGroup
failed_over = record group { health = ("primary", dead 5) ∷ ("replica", alive 0) ∷ [] }
