-- ===== src/LegacyRoute.antt =====
-- common/utils/legacy_route_helper.tsx and its call in public/plugin.ts: addresses of the old page.
mod Tests
use dashboards_query_workben.Common.{String, Option, none, some, if◌then◌else◌, ◌⧺◌}
use dashboards_query_workben.Common.Search.{
  starts_with, includes, replace_first, without_last_slash,
}

pub record Location : Type 0 where
  pub pathname : String
  pub hash : String

abbrev new_hash : String → String
new_hash hash =
    if includes "accelerate/" hash
    then replace_first "#/" "/" hash
    else if starts_with "#/" hash
    then replace_first "#/" "/" hash
    else hash

unfoldable pub convert_legacy_workbench_url : Location → String
convert_legacy_workbench_url location =
    without_last_slash (
      replace_first "app/opensearch-query-workbench" "app/dev_tools#/opensearch-query-workbench"
        location.pathname)
    ⧺ new_hash (replace_first "#/" "/" location.hash)

-- what is assigned to the window's location in the set-up, if anything is
unfoldable pub redirect : Location → Option String
unfolding convert_legacy_workbench_url
redirect location =
    if includes "app/opensearch-query-workbench" location.pathname
    then some (convert_legacy_workbench_url location)
    else none
