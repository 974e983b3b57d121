-- ===== src/LegacyRoute/Tests.antt =====
-- The redirect on concrete addresses.
use dashboards_query_workben.Common.{none, some, ◌≡◌, refl}
use dashboards_query_workben.LegacyRoute.{redirect}

redirect_plain :
    redirect (record { pathname = "/base/app/opensearch-query-workbench/"; hash = "" })
    ≡ some "/base/app/dev_tools#/opensearch-query-workbench"
unfolding redirect
redirect_plain = refl

redirect_source :
    redirect
      (record { pathname = "/app/opensearch-query-workbench"; hash = "#/accelerate/my_source" })
    ≡ some "/app/dev_tools#/opensearch-query-workbench/accelerate/my_source"
unfolding redirect
redirect_source = refl

redirect_elsewhere : redirect (record { pathname = "/app/dev_tools"; hash = "#/console" }) ≡ none
unfolding redirect
redirect_elsewhere = refl
