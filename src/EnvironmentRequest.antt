-- ===== src/EnvironmentRequest.antt =====
-- internal/controller/environmentrequest_controller.go: the reconciler of environment requests.
--
-- Reconcile is `reconcile_request`, the method reconcile below it is `reconcile`. What the cluster
-- answers is `EnvironmentRequestApi`. Logging is left out, and so is the registration of watches.
pub mod Types
pub mod ProviderJob
pub mod Quiet
pub mod Release
pub mod Failing
pub mod Starting
pub mod Deleting
pub mod Deletion
pub mod Ignores
pub mod Updates
pub mod Entry
pub mod Completion
pub mod Example
mod Tests
use Types.{EnvironmentRequestApi, Call, job_log, set_and_update, end_and_update, update_status}
use ProviderJob.{environment_provider_job}
use Release.{cleanup_unused, reconcile_deletion}
use etos.Prelude.{
  ℕ, Bool, true, false, not, ◌&&◌, Option, none, some, String, ◌<>◌, List, [], ◌∷◌, if◌then◌else◌,
  ◌~◌,
}
use etos.Kube.{Condition, Library, condition, is_zero}
use etos.Kube.Monad.{Sys, Result, ok, err, M, ◌>>=◌, pure, ask, tell}
use etos.Jobs.Types.{JobResult, JobStatus, conclusion_failed}
use etos.Jobs.{JobManager, new_job, status, create, delete}
use etos.Jobs.Results.{result}
use etos.Api.{EnvironmentRequest, Providers}
use etos.Controller.{
  release_finalizer, Outcome, update_outcome, done, requeue, requeue_after, is_status_reason,
  check_providers,
}
use etos.Controller.Reasons.{
  status_ready, reason_pending, reason_starting, reason_active, reason_failed, reason_completed,
}

abbrev pub owner_key : String
owner_key = ".metadata.controller.environmentrequest"

-- The containers whose termination logs are read, but for "environment-provider".
abbrev pub provider_names : List String
provider_names = "iut-provider" ∷ "execution-space-provider" ∷ "log-area-provider" ∷ []

module _ {E : Type 0} where
  -- What was updated, or an error that stands if nothing was.
  abbrev pub updated_or : Option E → Option (Option E) → Option E
  updated_or otherwise none = otherwise
  updated_or otherwise (some e) = e

module _ {Time : Type 0} where
  abbrev pub manager : EnvironmentRequest Time → JobManager Time
  manager er = new_job owner_key er.metadata.name er.metadata.namespace

  abbrev pub request_providers : EnvironmentRequest Time → Providers
  request_providers er = record {
    iut = er.spec.providers.iut;
    execution_space = er.spec.providers.execution_space;
    log_area = er.spec.providers.log_area;
  }

module _ {W E Time : Type 0} (L : Library E Time) (api : EnvironmentRequestApi W E Time) where
  -- The condition of a job that has succeeded.
  abbrev pub successful_condition : JobResult → Condition Time
  successful_condition r =
      if r.conclusion ~ conclusion_failed
      then condition L status_ready "False" reason_failed r.description
      else condition L status_ready "True" reason_completed r.description

  -- What follows the attempt to create the job: a failure is recorded, and a success as Starting, to
  -- prevent a second creation.
  unfoldable pub after_create : EnvironmentRequest Time → Option E → M W (Call Time) (Option E)
  after_create er (some e) =
      if is_status_reason L er.conditions status_ready reason_failed
      then pure (some e)
      else (set_and_update L api er
            (condition L status_ready "False" reason_failed (L.error_text e))
          >>= λ u. pure (updated_or (some e) u))
  after_create er none =
      set_and_update L api er
        (condition L status_ready "False" reason_starting "Environment provider job created")
      >>= λ u. pure (updated_or none u)

  -- The branch of a request without jobs.
  pub start_provider : EnvironmentRequest Time → M W (Call Time) (Option E)
  unfolding after_create
  start_provider er =
      if not (is_zero er.metadata.deletion_timestamp)
      then pure none
      else if is_status_reason L er.conditions status_ready reason_starting
      then pure none
      else (create L api.jobs job_log (environment_provider_job L api er) >>= λ created.
          after_create er created)

  -- The switch of reconcileEnvironmentProvider.
  pub follow_provider :
      JobStatus → JobManager Time → EnvironmentRequest Time → M W (Call Time) (Option E)
  unfolding start_provider
  follow_provider JobStatus.failed j er =
      result L api.jobs j "environment-provider" provider_names >>= λ r.
      end_and_update L api er (condition L status_ready "False" reason_failed r.description)
      >>= λ u. pure (updated_or none u)
  follow_provider JobStatus.successful j er =
      result L api.jobs j "environment-provider" provider_names >>= λ r.
      end_and_update L api er (successful_condition r) >>= λ u. pure (updated_or none u)
  follow_provider JobStatus.active j er =
      set_and_update L api er
        (condition L status_ready "False" reason_active "Environment provider is running")
      >>= λ u. pure (updated_or none u)
  follow_provider JobStatus.none j er = start_provider er

  -- What is done with the status of the jobs, or with the error of asking for it.
  unfoldable pub after_status :
      EnvironmentRequest Time → Result E JobStatus → JobManager Time → M W (Call Time) (Option E)
  unfolding follow_provider
  after_status er (err e) j = pure (some e)
  after_status er (ok js) j = follow_provider js j er

  pub reconcile_environment_provider : EnvironmentRequest Time → M W (Call Time) (Option E)
  unfolding after_status
  reconcile_environment_provider er =
      status L api.jobs (manager er) >>= λ r. after_status er r.0 r.1

  -- What follows the check of the providers.
  pub after_check : EnvironmentRequest Time → Option E → M W (Call Time) (Option E)
  unfolding reconcile_environment_provider
  after_check er none = reconcile_environment_provider er
  after_check er (some e) = ask api.now >>= λ t.
      let set = L.set_status_condition t er.conditions (
        condition L status_ready "False" reason_failed
          ("Provider check failed: " <> L.error_text e)) in
      update_status L api (record er { conditions = set.0 })

  pub check_and_follow : EnvironmentRequest Time → M W (Call Time) (Option E)
  unfolding after_check
  check_and_follow er =
      check_providers L api.get_provider er.metadata.namespace (request_providers er) >>= λ checked.
      after_check er checked

  -- The first condition of a request, or the end of one that has failed.
  unfoldable pub after_find :
      EnvironmentRequest Time → Option (Condition Time) → M W (Call Time) (Option E)
  unfolding check_and_follow
  after_find er none = ask api.now >>= λ t.
      let set =
        L.set_status_condition t er.conditions
          (condition L status_ready "False" reason_pending "Reconciliation started") in
      update_status L api (record er { conditions = set.0 })
  after_find er (some ready) =
      if ready.reason ~ reason_failed then pure none else check_and_follow er

  -- The method reconcile.
  unfoldable pub reconcile : EnvironmentRequest Time → M W (Call Time) (Option E)
  unfolding after_find
  reconcile er = after_find er (L.find_status_condition er.conditions status_ready)

  -- What Reconcile returns for the error of reconcile.
  unfoldable pub outcome_of : Option E → Outcome ℕ × Option E
  outcome_of none = (done, none)
  outcome_of (some e) = if L.is_conflict e then (requeue, none) else (done, some e)

  -- What is done with a completion time, or without one.
  unfoldable pub by_completion :
      EnvironmentRequest Time → Option Time → M W (Call Time) (Outcome ℕ × Option E)
  unfolding reconcile outcome_of
  by_completion er (some _) =
      -- The errors of both are only logged.
      delete L api.jobs job_log (manager er) >>= λ _.
      cleanup_unused L api er >>= λ _. pure (done, none)
  by_completion er none = reconcile er >>= λ e. pure (outcome_of e)

  -- Reconcile, from the check of the completion time on.
  unfoldable pub reconcile_existing :
      EnvironmentRequest Time → M W (Call Time) (Outcome ℕ × Option E)
  unfolding by_completion
  reconcile_existing er = by_completion er er.completion_time

  -- Adding the finalizer to a request that has none.
  unfoldable pub add_finalizer : EnvironmentRequest Time → M W (Call Time) (Outcome ℕ × Option E)
  add_finalizer er =
      let metadata = er.metadata in
      let er' = record er {
        metadata = record metadata {
          finalizers = L.add_finalizer metadata.finalizers release_finalizer;
        };
      } in
      tell (Call.updated er') (api.update er') >>= λ r. pure (update_outcome L r)

  -- Reconcile, once the request was asked for.
  unfoldable pub after_found :
      Result E (EnvironmentRequest Time) → M W (Call Time) (Outcome ℕ × Option E)
  unfolding reconcile_existing add_finalizer
  after_found (err e) = if L.is_not_found e then pure (done, none) else pure (done, some e)
  after_found (ok er) =
      if is_zero er.metadata.deletion_timestamp
      then (if L.contains_finalizer er.metadata.finalizers release_finalizer
          then reconcile_existing er
          else add_finalizer er)
      else if L.contains_finalizer er.metadata.finalizers release_finalizer
      then reconcile_deletion L api er
      else reconcile_existing er

  -- Reconcile, by namespace and name.
  unfoldable pub reconcile_request : String → String → M W (Call Time) (Outcome ℕ × Option E)
  unfolding after_found
  reconcile_request namespace name = ask (api.get namespace name) >>= λ found. after_found found
