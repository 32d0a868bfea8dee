-- ===== src/Environment/Types.antt =====
-- What the reconciler of environments keeps and calls, and how its calls stand in the log.
use etos.Prelude.{Bool, Option, String, List, if◌then◌else◌}
use etos.Prelude.Int.{ℤ}
use etos.Kube.{Condition, ObjectMeta, Library, condition}
use etos.Kube.Monad.{Result, ok, M, ◌>>=◌, pure, tell}
use etos.Kube.Pod.{JobSpec}
use etos.Jobs.Types.{JobApi, JobLog}
use etos.Api.{EnvironmentRequest, OpenTelemetry, Providers}
use etos.Controller.{GetProvider, set_condition}
use etos.Controller.Reasons.{status_active}

-- v1alpha1.Environment. `Spec.Providers` is taken to be set, as CreateEnvironment does.
pub record Environment (Time : Type 0) : Type 0 where
  pub metadata : ObjectMeta Time
  pub providers : Providers
  pub deadline : ℤ
  pub conditions : List (Condition Time)
  pub completion_time : Option Time

-- The resources of an environment.
pub data Kind : Type 0 where
  iut_kind log_area_kind execution_space_kind : Kind

-- An Iut, a LogArea or an ExecutionSpace; `controlled` is HasControllerReference.
pub record Resource (Time : Type 0) : Type 0 where
  pub metadata : ObjectMeta Time
  pub provider_id : String
  pub controlled : Bool

pub record EnvironmentApi (W E Time : Type 0) : Type 0 where
  pub now : W → Time × W
  pub get : String → String → W → Result E (Environment Time) × W
  -- An update returns the object as the server has it then.
  pub update : Environment Time → W → Result E (Environment Time) × W
  pub update_status : Environment Time → W → Result E (Environment Time) × W
  pub delete : Environment Time → W → Option E × W
  -- By kind, namespace and name.
  pub get_resource : Kind → String → String → W → Result E (Resource Time) × W
  pub update_resource : Kind → Resource Time → W → Option E × W
  pub get_request : String → String → W → Result E (EnvironmentRequest Time) × W
  pub get_provider : GetProvider W E Time
  pub get_cluster : String → String → W → Result E OpenTelemetry × W
  pub jobs : JobApi W E Time
  -- ctrl.SetControllerReference of an environment on a resource, and on its job.
  pub control_resource : Environment Time → Resource Time → Result E (Resource Time)
  pub control_job : Environment Time → JobSpec → Option E
  -- time.Unix, and its text.
  pub unix : ℤ → Time
  pub time_text : Time → String

-- The calls that change something.
pub data Call (Time : Type 0) : Type 0 where
  updated updated_status deleted : Environment Time → Call Time
  updated_resource : Kind → Resource Time → Call Time
  created_job : JobSpec → Call Time
  deleted_job : String → Call Time

abbrev pub job_log : {Time : Type 0} → JobLog (Call Time)
job_log = record { created = created_job; deleted = deleted_job }

module _ {W E Time : Type 0} (L : Library E Time) (api : EnvironmentApi W E Time) where
  -- The condition Active of an environment that is no longer in use.
  abbrev pub inactive : String → String → Condition Time
  inactive reason message = condition L status_active "False" reason message

  unfoldable pub update_status : Environment Time → M W (Call Time) (Result E (Environment Time))
  update_status env = tell (Call.updated_status env) (api.update_status env)

  -- SetStatusCondition, and an update of the status if that changed anything; the environment is then
  -- as the code has it.
  unfoldable pub set_and_update :
      Environment Time → Condition Time → M W (Call Time) (Result E (Environment Time))
  unfolding update_status
  set_and_update env c = set_condition L api.now env.conditions c >>= λ set.
      if set.1
      then update_status (record env { conditions = set.0 })
      else pure (ok (record env { conditions = set.0 }))
