-- ===== src/Resource/Types.antt =====
-- api/v1alpha2: an Iut, a LogArea or an ExecutionSpace as its controller reads it; what the three
-- controllers call, and how their calls stand in the log.
use etos.Prelude.{Option, String, List}
use etos.Kube.{Condition, ObjectMeta}
use etos.Kube.Monad.{Result}
use etos.Kube.Pod.{JobSpec}
use etos.Jobs.Types.{JobApi, JobLog}
use etos.Api.{EnvironmentRequest}
use etos.Controller.{GetProvider}
use etos.Environment.Types.{Kind, iut_kind, log_area_kind, execution_space_kind}
use etos.Releasers.{iut_releaser_name, log_area_releaser_name, execution_space_releaser_name}

pub record Managed (Time : Type 0) : Type 0 where
  pub metadata : ObjectMeta Time
  pub environment_request : String
  pub provider_id : String
  pub conditions : List (Condition Time)
  pub completion_time : Option Time

pub record ResourceApi (W E Time : Type 0) : Type 0 where
  pub now : W → Time × W
  pub get : String → String → W → Result E (Managed Time) × W
  -- An update returns the object as the server has it then.
  pub update : Managed Time → W → Result E (Managed Time) × W
  pub update_status : Managed Time → W → Result E (Managed Time) × W
  pub get_provider : GetProvider W E Time
  pub get_request : String → String → W → Result E (EnvironmentRequest Time) × W
  pub jobs : JobApi W E Time
  -- ctrl.SetControllerReference of the resource on its job.
  pub control_job : Managed Time → JobSpec → Option E

-- The calls that change something.
pub data Call (Time : Type 0) : Type 0 where
  updated updated_status : Managed Time → Call Time
  created_job : JobSpec → Call Time
  deleted_job : String → Call Time

abbrev pub job_log : {Time : Type 0} → JobLog (Call Time)
job_log = record { created = created_job; deleted = deleted_job }

-- What the three controllers call their kind.
abbrev pub owner_key : Kind → String
owner_key iut_kind = ".metadata.controller.iut-provider"
owner_key log_area_kind = ".metadata.controller.log-area-provider"
owner_key execution_space_kind = ".metadata.controller.execution-space-provider"

abbrev pub releasing : Kind → String
releasing iut_kind = "Releasing IUT"
releasing log_area_kind = "Releasing LogArea"
releasing execution_space_kind = "Releasing ExecutionSpace"

abbrev pub releaser_name : Kind → String
releaser_name iut_kind = iut_releaser_name
releaser_name log_area_kind = log_area_releaser_name
releaser_name execution_space_kind = execution_space_releaser_name
