-- ===== src/Capabilities/Tests.antt =====
-- Concrete versions.
use dashboards_query_workben.Common.{true, none, some, ◌≡◌, refl}
use dashboards_query_workben.Capabilities.{
  get_deployment_capabilities, coerce_version, s_full, capabilities_of, is_open_search,
}
use dashboards_query_workben.Capabilities.Ladder.{IsLadder, get_deployment_capabilities-IsLadder}
use dashboards_query_workben.Capabilities.Engine.{IsBelow, get_deployment_capabilities_mono}
use dashboards_query_workben.Capabilities.Samples.{sample_semver, sample_semver-SemverLaws, rank}

test_full_state : (get_deployment_capabilities sample_semver (some "2.13.0") none).state ≡ s_full
unfolding get_deployment_capabilities coerce_version sample_semver rank capabilities_of
    is_open_search
test_full_state = refl

get_deployment_capabilities-IsLadder_example :
    IsLadder (get_deployment_capabilities sample_semver (some "2.11.0") none)
get_deployment_capabilities-IsLadder_example =
    get_deployment_capabilities-IsLadder sample_semver sample_semver-SemverLaws (some "2.11.0") none

get_deployment_capabilities_mono_example :
    IsBelow
      (get_deployment_capabilities sample_semver (some "2.11.0") (some true))
      (get_deployment_capabilities sample_semver (some "2.13.0") (some true))
unfolding coerce_version sample_semver rank
get_deployment_capabilities_mono_example =
    get_deployment_capabilities_mono sample_semver sample_semver-SemverLaws (some "2.11.0")
      (some "2.13.0") (record { version = "2.11.0"; major = 2 })
      (record { version = "2.13.0"; major = 2 }) true refl refl refl
