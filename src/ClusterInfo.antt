-- ===== src/ClusterInfo.antt =====
-- server/services/ClusterInfoService.ts: the version and the engine of a cluster, probed once.
pub mod Cache
pub mod Agreement
pub mod SingleFlight
mod Tests
use dashboards_query_workben.Common.{
  ℕ, String, Bool, true, false, not, Option, none, some, List, [], ◌∷◌, ◌++◌, if◌then◌else◌, ◌==◌,
  get_or, is_blank, length, get_elem?, zero, suc,
}
use dashboards_query_workben.Common.Dict.{lookup, insert, delete}
use dashboards_query_workben.Capabilities.{truthy}
use dashboards_query_workben.Capabilities.Resolve.{
  DataSourceAttributes, engine_signal, ClusterInfoReply,
}

pub record ClusterEngineInfo : Type 0 where
  pub version : String
  pub is_open_search : Option Bool

-- What the callers get when a lookup fails.
abbrev pub unknown_engine : ClusterEngineInfo
unknown_engine = record { version = ""; is_open_search = none }

-- The fields of an `info` response that are read.
pub record InfoResponse : Type 0 where
  pub number : Option String
  pub distribution : Option String

abbrev is_distribution : Option String → Bool
is_distribution none = false
is_distribution (some d) = d == "opensearch"

-- `none` is a rejected call.
unfoldable pub probe : Option InfoResponse → Option ClusterEngineInfo
probe none = none
probe (some info) = some (record {
  version = get_or info.number "";
  is_open_search = some (is_distribution info.distribution);
})

-- the live probe of `probeDataSource`; an empty version is an error
probe_live : Option InfoResponse → Option ClusterEngineInfo
probe_live none = none
probe_live (some resp) =
    let version = get_or resp.number "" in
    if is_blank version
    then none
    else some
        (record { version = version; is_open_search = some (is_distribution resp.distribution) })

unfoldable pub probe_data_source :
    Option DataSourceAttributes → Option InfoResponse → Option ClusterEngineInfo
unfolding probe_live
probe_data_source none live = probe_live live
probe_data_source (some attrs) live = elim (truthy attrs.data_source_version) [
  | none ↦ probe_live live
  | some version ↦
      some
        (record { version = version; is_open_search = engine_signal attrs.data_source_engine_type })
]

-- `.catch(…)`: a failed lookup answers with the unknown engine.
abbrev pub answer : Option ClusterEngineInfo → ClusterEngineInfo
answer r = get_or r unknown_engine

-- the handler of `GET /api/sql_console/cluster_info` in server/routes/query.ts
unfoldable pub cluster_info_route : ClusterEngineInfo → ClusterInfoReply
cluster_info_route info = record {
  ok = true;
  version = some info.version;
  is_open_search = info.is_open_search;
}

-- The cluster that a promise asks about.
pub data Target : Type 0 where
  local : Target
  data_source : String → Target

pub data Settlement : Type 0 where
  pending failed : Settlement
  fulfilled : ClusterEngineInfo → Settlement

pub record LookupPromise : Type 0 where
  pub target : Target
  pub settlement : Settlement

-- The service's two fields, with the promises made so far; a promise is its position.
pub record Service : Type 0 where
  pub info_promise : Option ℕ
  pub data_source_info_cache : List (String × ℕ)
  pub promises : List LookupPromise

abbrev pub new_service : Service
new_service = record { info_promise = none; data_source_info_cache = []; promises = [] }

abbrev pub start : Target → Service → List LookupPromise
start target s = s.promises ++ record { target = target; settlement = pending } ∷ []

-- A call returns the promise that the caller awaits.
pub get_version : Service → Service × ℕ
get_version s = elim s.info_promise [
  | some p ↦ (s, p)
  | none ↦ (
    record s { info_promise = some (length s.promises); promises = start local s },
    length s.promises,
  )
]

pub get_data_source_info : String → Service → Service × ℕ
get_data_source_info id s = elim (lookup id s.data_source_info_cache) [
  | some p ↦ (s, p)
  | none ↦ (
    record s {
      data_source_info_cache = insert id (length s.promises) s.data_source_info_cache;
      promises = start (data_source id) s;
    },
    length s.promises,
  )
]

abbrev pub settle_at : ℕ → Settlement → List LookupPromise → List LookupPromise
settle_at p r [] = []
settle_at zero r (x ∷ xs) = record x { settlement = r } ∷ xs
settle_at (suc p) r (x ∷ xs) = x ∷ settle_at p r xs

-- The probe of promise `p` answers.
pub on_probe_ok : ℕ → ClusterEngineInfo → Service → Service
on_probe_ok p info s = record s { promises = settle_at p (fulfilled info) s.promises }

-- The `catch` handlers: the cache entry of the promise's target is dropped.
evict : Target → Service → Service
evict local s = record s { info_promise = none }
evict (data_source id) s = record s { data_source_info_cache = delete id s.data_source_info_cache }

pub on_probe_failed : ℕ → Target → Service → Service
unfolding evict
on_probe_failed p target s = evict target (record s { promises = settle_at p failed s.promises })
