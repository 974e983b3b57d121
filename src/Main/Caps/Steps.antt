-- ===== src/Main/Caps/Steps.antt =====
-- public/components/Main/main.tsx: what happens to the mounted page, in any order.
use dashboards_query_workben.Common.{String, Option, List, ◌∷◌, ◌++◌, ◌≡◌}
use dashboards_query_workben.Capabilities.{DeploymentCapabilities}
use dashboards_query_workben.DataSources.{Outcome}
use dashboards_query_workben.Results.{QueryResponse}
use dashboards_query_workben.Main.{DataSourceOption, MainProps}
use dashboards_query_workben.Main.Events.{Event, handle}
use dashboards_query_workben.Main.Caps.{
  CapsRequest, Mounted, component_did_mount, on_selected_data_source, on_resolved, on_data_sources,
}

-- `Gives mds_id caps`: the cluster may answer a request with these capabilities.
module _ {J E : Type 0} (to_lower_case : String → String)
    (json_parse : String → Option (QueryResponse J)) (object_text : String)
    (Gives : Option String → DeploymentCapabilities → Type 0) where
  pub data Step (p : Mounted J E) : Mounted J E → Type 0 where
    selects : (e : List DataSourceOption) → Step p (on_selected_data_source e p)
    -- any of the requests that are out is answered
    resolves :
        (before : List CapsRequest) (r : CapsRequest) (after : List CapsRequest)
        (caps : DeploymentCapabilities)
        → p.caps_requests ≡ before ++ r ∷ after
        → Gives r.mds_id caps
        → Step p (on_resolved r.token caps (record p { caps_requests = before ++ after }))
    finds_sources : (outcome : Outcome) → Step p (on_data_sources outcome p)
    handles :
        (event : Event J E)
        → Step p (record p { page = handle to_lower_case json_parse object_text event p.page })

  pub data Reach (props : MainProps) : Mounted J E → Type 0 where
    mounts : Reach props (component_did_mount props)
    later : {p q : Mounted J E} → Reach props p → Step p q → Reach props q
