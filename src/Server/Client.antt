-- ===== src/Server/Client.antt =====
-- server/services/: what the services see of a request and of the cluster clients.
use dashboards_query_workben.Common.{ℕ, String, Bool, Option, none, some, List, if◌then◌else◌, eqb}
use dashboards_query_workben.Capabilities.{truthy}
use dashboards_query_workben.ClusterInfo.{ClusterEngineInfo, Target, local, data_source}

-- The parameters of an action.
pub data CallParams : Type 0 where
  body job_id : String → CallParams
  no_params : CallParams

pub record Call : Type 0 where
  pub target : Target
  pub action : String
  pub params : CallParams

-- An error of the client.
pub record ClientError : Type 0 where
  pub message : String
  pub body : Option String
  pub status_code : Option ℕ

pub data Answer (J : Type 0) : Type 0 where
  returned : J → Answer J
  thrown : ClientError → Answer J

-- `resp` of a reply: a text, or what the cluster returned.
pub data Resp (J : Type 0) : Type 0 where
  text : String → Resp J
  raw : J → Resp J

pub record Reply (J : Type 0) : Type 0 where
  pub ok : Bool
  pub resp : Resp J
  pub body : Option String
  pub status_code : Option ℕ

pub record Request (J : Type 0) : Type 0 where
  pub query_data_source : Option String
  pub params_data_source : Option String
  pub params_id : String
  pub body : J

-- JSON values and their text, the clients' answers, and the engines that `ClusterInfoService` tells.
pub record Runtime (J : Type 0) : Type 0 where
  pub stringify : J → String
  pub query_request : J → J
  pub empty_list : J
  pub perform : Call → Answer J
  pub engine : Target → ClusterEngineInfo

-- The calls that a service method makes of the clients, in order, and its reply.
pub record Handled (J : Type 0) : Type 0 where
  pub calls : List Call
  pub reply : Reply J

-- `this.dataSourceEnabled && dataSourceMDSId`
abbrev pub target_of : Bool → Option String → Target
target_of enabled id = elim (truthy id) [
  | none ↦ local
  | some k ↦ if enabled then data_source k else local
]

-- `err.statusCode || 400`
abbrev pub status_or_400 : Option ℕ → ℕ
status_or_400 none = 400
status_or_400 (some n) = if eqb n 0 then 400 else n
