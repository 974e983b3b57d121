-- ===== src/DataSources/Tests.antt =====
-- A concrete reply.
use dashboards_query_workben.Common.{true, some, List, [], ◌∷◌, ◌≡◌}
use dashboards_query_workben.DataSources.{DataSourceItem, on_success, fetch_data_sources}
use dashboards_query_workben.DataSources.Offered.{fetch_data_sources-s3_options}

abbrev reply : List DataSourceItem
reply =
    record { connector = "PROMETHEUS"; name = "metrics" }
    ∷ record { connector = "S3GLUE"; name = "lake" }
    ∷ record { connector = "S3GLUE"; name = "logs" }
    ∷ []

fetch_data_sources-s3_options_example :
    fetch_data_sources "logs" (some reply)
    ≡ on_success (record { label = "S3GLUE"; options = "lake" ∷ "logs" ∷ [] } ∷ []) true
fetch_data_sources-s3_options_example = fetch_data_sources-s3_options "logs" reply
