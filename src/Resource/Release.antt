-- ===== src/Resource/Release.antt =====
-- internal/controller/iut_controller.go, logarea_controller.go and executionspace_controller.go: the
-- release job of a resource that is being deleted (reconcile…Releaser and releaseJob).
use etos.Prelude.{true, Option, none, some, String, List, [], if◌then◌else◌, ◌~◌}
use etos.Kube.{Condition, Library, condition, is_zero}
use etos.Kube.Monad.{Result, ok, err, M, ◌>>=◌, ◌>>?◌, pure, ask, tell}
use etos.Kube.Pod.{JobSpec}
use etos.Jobs.Types.{JobResult, JobStatus, conclusion_failed}
use etos.Jobs.{JobManager, new_job, status, create}
use etos.Jobs.Results.{result}
use etos.Api.{EnvironmentRequest, Provider}
use etos.Releasers.{iut_releaser, log_area_releaser, execution_space_releaser}
use etos.Controller.{is_status_reason, set_condition}
use etos.Controller.Reasons.{status_active, reason_pending, reason_failed, reason_completed}
use etos.Environment.Types.{Kind, iut_kind, log_area_kind, execution_space_kind}
use etos.Resource.Types.{
  Managed, ResourceApi, Call, updated_status, job_log, owner_key, releasing, releaser_name,
}

module _ {Time : Type 0} where
  abbrev pub manager : Kind → Managed Time → JobManager Time
  manager kind r = new_job (owner_key kind) r.metadata.name r.metadata.namespace

-- The error of a call that returns the object or an error.
abbrev pub error_of : {E A : Type 0} → Result E A → Option E
error_of (ok a) = none
error_of (err e) = some e

module _ {W E Time : Type 0} (L : Library E Time) (api : ResourceApi W E Time) where
  -- release.IutReleaser and its two siblings.
  unfoldable pub releaser_of :
      Kind → Managed Time → EnvironmentRequest Time → Provider Time → Result E JobSpec
  unfolding iut_releaser log_area_releaser execution_space_releaser
  releaser_of iut_kind r er provider = iut_releaser L r.metadata er (some provider) true
  releaser_of log_area_kind r er provider = log_area_releaser L r.metadata er (some provider) true
  releaser_of execution_space_kind r er provider =
      execution_space_releaser L r.metadata er (some provider) true

  unfoldable pub release_job : Kind → Managed Time → M W (Call Time) (Result E JobSpec)
  unfolding releaser_of
  release_job kind r = ask (api.get_provider r.metadata.namespace r.provider_id) >>? λ provider.
      ask (api.get_request r.metadata.namespace r.environment_request) >>? λ er.
      pure (releaser_of kind r er provider) >>? λ spec.
      pure (elim (api.control_job r spec) [ none ↦ ok spec | some e ↦ err e ])

  unfoldable pub update_status : Managed Time → M W (Call Time) (Option E)
  update_status r = do a ← tell (updated_status r) (api.update_status r); pure (error_of a)

  -- SetStatusCondition of the condition Active, and an update of the status if that changed anything;
  -- the error is the second argument if it did not.
  unfoldable pub set_active : Managed Time → Condition Time → Option E → M W (Call Time) (Option E)
  unfolding update_status
  set_active r c otherwise = set_condition L api.now r.conditions c >>= λ set.
      if set.1 then update_status (record r { conditions = set.0 }) else pure otherwise

  abbrev pub inactive : String → String → Condition Time
  inactive reason message = condition L status_active "False" reason message

  -- The condition after a job that was successful, of which the container may have failed.
  unfoldable pub end_condition : JobResult → Condition Time
  end_condition r =
      if r.conclusion ~ conclusion_failed
      then inactive reason_failed r.description
      else inactive reason_completed r.description

  -- The clock, which is read for the completion time of a log area and of an execution space.
  unfoldable pub completion : Kind → M W (Call Time) (Option Time)
  completion iut_kind = pure none
  completion log_area_kind = ask api.now >>= λ t. pure (some t)
  completion execution_space_kind = ask api.now >>= λ t. pure (some t)

  -- The completion time by those conditions. That of an Iut is a pointer to the transition time of the
  -- condition Active, which reconcile has found there and which SetStatusCondition changes in place, so
  -- it is read from the conditions as they are set.
  unfoldable pub completed_at : Kind → Option Time → List (Condition Time) → Option Time
  completed_at iut_kind t conditions = elim (L.find_status_condition conditions status_active) [
    | none ↦ none
    | some active ↦ some active.last_transition_time
  ]
  completed_at log_area_kind t conditions = t
  completed_at execution_space_kind t conditions = t

  -- The end of a resource: its completion time, its condition Active, and the update if that changed it.
  unfoldable pub complete :
      Kind → Managed Time → Condition Time → Option Time → M W (Call Time) (Option E)
  unfolding update_status completed_at
  complete kind r c t = set_condition L api.now r.conditions c >>= λ set.
      if set.1
      then update_status
          (record r { conditions = set.0; completion_time = completed_at kind t set.0 })
      else pure none

  -- What follows the attempt to create the job.
  unfoldable pub after_create : Kind → Managed Time → Option E → M W (Call Time) (Option E)
  unfolding set_active
  after_create kind r (some e) =
      if is_status_reason L r.conditions status_active reason_failed
      then pure (some e)
      else set_active r (inactive reason_failed (L.error_text e)) (some e)
  after_create kind r none = set_active r (inactive reason_pending (releasing kind)) none

  -- The branch of a resource without jobs.
  unfoldable pub start_release : Kind → Managed Time → M W (Call Time) (Option E)
  unfolding after_create
  start_release kind r =
      if is_zero r.metadata.deletion_timestamp
      then pure none
      else (create L api.jobs job_log (release_job kind r) >>= λ created.
          after_create kind r created)

  -- The switch on the status of the jobs.
  unfoldable pub follow_release :
      Kind → Managed Time → JobStatus → JobManager Time → M W (Call Time) (Option E)
  unfolding set_active end_condition completion complete start_release
  follow_release kind r JobStatus.failed j = result L api.jobs j (releaser_name kind) [] >>= λ res.
      set_active r (inactive reason_failed res.description) none
  follow_release kind r JobStatus.successful j =
      result L api.jobs j (releaser_name kind) [] >>= λ res.
      completion kind >>= λ t. complete kind r (end_condition res) t
  follow_release kind r JobStatus.active j =
      set_active r (inactive reason_pending (releasing kind)) none
  follow_release kind r JobStatus.none j = start_release kind r

  -- What is done with the status of the jobs, or with the error of asking for it.
  unfoldable pub after_status :
      Kind → Managed Time → Result E JobStatus → JobManager Time → M W (Call Time) (Option E)
  unfolding follow_release
  after_status kind r (err e) j = pure (some e)
  after_status kind r (ok js) j = follow_release kind r js j

  unfoldable pub reconcile_releaser : Kind → Managed Time → M W (Call Time) (Option E)
  unfolding after_status
  reconcile_releaser kind r =
      status L api.jobs (manager kind r) >>= λ a. after_status kind r a.0 a.1

  -- The instances for a log area and for an execution space.
  unfoldable pub log_area_release_job : Managed Time → M W (Call Time) (Result E JobSpec)
  unfolding release_job
  log_area_release_job = release_job log_area_kind

  unfoldable pub execution_space_release_job : Managed Time → M W (Call Time) (Result E JobSpec)
  unfolding release_job
  execution_space_release_job = release_job execution_space_kind

  unfoldable pub reconcile_log_area_releaser : Managed Time → M W (Call Time) (Option E)
  unfolding reconcile_releaser
  reconcile_log_area_releaser = reconcile_releaser log_area_kind

  unfoldable pub reconcile_execution_space_releaser : Managed Time → M W (Call Time) (Option E)
  unfolding reconcile_releaser
  reconcile_execution_space_releaser = reconcile_releaser execution_space_kind
