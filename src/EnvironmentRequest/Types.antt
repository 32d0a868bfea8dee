-- ===== src/EnvironmentRequest/Types.antt =====
-- What the reconciler of environment requests calls, and how its calls stand in the log.
use etos.Prelude.{String, Option, none, some, List, if◌then◌else◌}
use etos.Kube.{Condition, ObjectMeta, Library}
use etos.Kube.Monad.{Result, ok, err, M, ◌>>=◌, pure, tell}
use etos.Kube.Pod.{JobSpec}
use etos.Jobs.Types.{JobApi, JobLog}
use etos.Api.{EnvironmentRequest, OpenTelemetry}
use etos.Api.Values.{VarApi}
use etos.Controller.{GetProvider, set_condition}
use etos.Controller.Reasons.{status_ready}

-- The resources that belong to an environment request.
pub data Kind : Type 0 where
  environments iuts log_areas execution_spaces : Kind

pub record EnvironmentRequestApi (W E Time : Type 0) : Type 0 where
  pub now : W → Time × W
  -- By namespace and name.
  pub get : String → String → W → Result E (EnvironmentRequest Time) × W
  -- An update returns the object as the server has it then.
  pub update : EnvironmentRequest Time → W → Result E (EnvironmentRequest Time) × W
  pub update_status : EnvironmentRequest Time → W → Result E (EnvironmentRequest Time) × W
  pub get_provider : GetProvider W E Time
  -- A cluster, of which only the OpenTelemetry part is read.
  pub get_cluster : String → String → W → Result E OpenTelemetry × W
  pub vars : VarApi W E
  -- The resources of a namespace with a label of that value.
  pub list : Kind → String → String → String → W → Result E (List (ObjectMeta Time)) × W
  pub delete : Kind → ObjectMeta Time → W → Option E × W
  pub jobs : JobApi W E Time
  -- ctrl.SetControllerReference of the request on its job.
  pub set_controller_reference : EnvironmentRequest Time → JobSpec → Option E

-- The calls that change something.
pub data Call (Time : Type 0) : Type 0 where
  updated updated_status : EnvironmentRequest Time → Call Time
  deleted : Kind → String → Call Time
  created_job : JobSpec → Call Time
  deleted_job : String → Call Time

abbrev pub job_log : {Time : Type 0} → JobLog (Call Time)
job_log = record { created = created_job; deleted = deleted_job }

-- The error of a call that returns the object or an error.
abbrev pub error_of : {E A : Type 0} → Result E A → Option E
error_of (ok a) = none
error_of (err e) = some e

module _ {W E Time : Type 0} (L : Library E Time) (api : EnvironmentRequestApi W E Time) where
  unfoldable pub update_status : EnvironmentRequest Time → M W (Call Time) (Option E)
  update_status er = do r ← tell (Call.updated_status er) (api.update_status er); pure (error_of r)

  -- The completion time of a request that has ended: the transition time of its condition Ready, which
  -- was set just before.
  abbrev pub ended : List (Condition Time) → Option Time
  ended conditions = elim (L.find_status_condition conditions status_ready) [
    | none ↦ none
    | some c ↦ some c.last_transition_time
  ]

  -- SetStatusCondition, and an update of the status if that changed anything: `none` if it did not.
  unfoldable pub set_and_update :
      EnvironmentRequest Time → Condition Time → M W (Call Time) (Option (Option E))
  unfolding update_status
  set_and_update er c = set_condition L api.now er.conditions c >>= λ set.
      if set.1
      then (update_status (record er { conditions = set.0 }) >>= λ e. pure (some e))
      else pure none

  -- The same for a request that ends with it.
  unfoldable pub end_and_update :
      EnvironmentRequest Time → Condition Time → M W (Call Time) (Option (Option E))
  unfolding update_status
  end_and_update er c = set_condition L api.now er.conditions c >>= λ set.
      if set.1
      then (update_status (record er { conditions = set.0; completion_time = ended set.0 }) >>= λ e.
          pure (some e))
      else pure none
