-- ===== src/Examples/Splits.antt =====
-- The theorems on read/write splitting, applied.
use pgferry.Prelude.{ℕ, ◌≡◌, none, List, [], ◌∷◌, true, false, ◌⊎◌}
use pgferry.Prelude.Text.{codes, strip_prefix}
use pgferry.Config.{EndpointConfig}
use pgferry.Examples.Routes.{primary, replica, failed_over}
use pgferry.Routing.Split.{strip_comments, RwSplit, new, route_sql, primary_only, replica_first}
use pgferry.Routing.Split.Writes.{IsRead, route_sql-splits}
use pgferry.Routing.Split.Comments.{strip_comments-ends}

abbrev select : List ℕ
select = codes "select 1"

abbrev hint : List ℕ
hint = codes " from a * b "

strip_comments-ends_example :
    (strip_prefix (codes "--") (strip_comments hint) ≡ none)
    × (strip_prefix (codes "/*") (strip_comments hint) ≡ none)
strip_comments-ends_example = strip_comments-ends hint

abbrev split : RwSplit
split = new failed_over "primary"

abbrev two_targets : List EndpointConfig
two_targets = primary ∷ replica ∷ []

route_sql-splits_example :
    (((split.classifier select ≡ false) ⊎ (split.preference ≡ primary_only))
      × (route_sql 6 two_targets select split ≡ split.primary))
    ⊎ ((split.classifier select ≡ true)
        × (split.preference ≡ replica_first)
        × IsRead 6 split two_targets (route_sql 6 two_targets select split))
route_sql-splits_example = route_sql-splits 6 two_targets select split
