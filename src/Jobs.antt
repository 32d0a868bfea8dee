-- ===== src/Jobs.antt =====
-- internal/controller/jobs: the job manager, which lists, sorts, creates and deletes the jobs of an
-- owner and reads their results from the termination logs of their pods.
--
-- The API server and encoding/json are `JobApi`. Logging is left out.
pub mod Types
pub mod Sorted
pub mod Results
pub mod Deletion
mod Tests
use Types.{JobResult, JobStatus, JobApi, JobLog}
use etos.Prelude.{
  ℕ, ltb, ◌==◌, Bool, true, false, not, ◌&&◌, Option, none, some, String, ◌<>◌, List, [], ◌∷◌, ◌++◌,
  length, if◌then◌else◌, ◌~◌,
}
use etos.Kube.{Library, is_zero}
use etos.Kube.Monad.{Sys, Result, ok, err, M, ◌>>=◌, pure, ask, tell}
use etos.Kube.Pod.{JobCondition, Job, ContainerStatus, Pod, JobSpec}

-- The struct `job`.
pub record JobManager (Time : Type 0) : Type 0 where
  pub owner_key : String
  pub name : String
  pub namespace : String
  pub active_jobs : List (Job Time)
  pub successful_jobs : List (Job Time)
  pub failed_jobs : List (Job Time)

-- isJobStatusConditionPresentAndEqual.
pub is_job_condition : List JobCondition → String → String → Bool
is_job_condition [] kind status = false
is_job_condition (c ∷ cs) kind status =
    if c.kind ~ kind then c.status ~ status else is_job_condition cs kind status

module _ {Time : Type 0} where
  unfoldable pub new_job : String → String → String → JobManager Time
  new_job owner_key name namespace = record {
    owner_key = owner_key;
    name = name;
    namespace = namespace;
    active_jobs = [];
    successful_jobs = [];
    failed_jobs = [];
  }

  -- The second value is the type of the condition that says so, or the empty text.
  unfoldable pub is_job_finished : Job Time → Bool × String
  unfolding is_job_condition
  is_job_finished job =
      if is_job_condition job.conditions "Complete" "True"
      then (true, "Complete")
      else if is_job_condition job.conditions "Failed" "True"
      then (true, "Failed")
      else (false, "")

  -- The loop of `jobStatus`: active, failed and successful jobs, in the order of the list.
  unfoldable pub sort_jobs : List (Job Time) → List (Job Time) × List (Job Time) × List (Job Time)
  sort_jobs [] = ([], [], [])
  sort_jobs (job ∷ jobs) =
      let rest = sort_jobs jobs in
      let kind = (is_job_finished job).1 in
      if kind ~ ""
      then (job ∷ rest.0, rest.1, rest.2)
      else if kind ~ "Failed"
      then (rest.0, job ∷ rest.1, rest.2)
      else if kind ~ "Complete"
      then (rest.0, rest.1, job ∷ rest.2)
      else rest

  pub active : JobManager Time → Bool
  active j =
      (length j.successful_jobs == 0) && (length j.failed_jobs == 0) && ltb 0 (length j.active_jobs)

  pub failed : JobManager Time → Bool
  failed j = ltb 0 (length j.failed_jobs) && (length j.active_jobs == 0)

  pub successful : JobManager Time → Bool
  successful j = ltb 0 (length j.successful_jobs) && (length j.active_jobs == 0)

  pub empty : JobManager Time → Bool
  empty j =
      (length j.successful_jobs == 0) && (length j.failed_jobs == 0) && (length j.active_jobs == 0)

  pub all : JobManager Time → List (Job Time)
  all j = j.active_jobs ++ (j.failed_jobs ++ j.successful_jobs)

module _ {E Time : Type 0} (L : Library E Time) where
  -- The tests of `Status` after `jobStatus`.
  unfoldable pub classify : JobManager Time → Result E JobStatus
  unfolding active successful failed empty
  classify j =
      if active j
      then ok JobStatus.active
      else if successful j
      then ok JobStatus.successful
      else if failed j
      then ok JobStatus.failed
      else if empty j
      then ok JobStatus.none
      else err (L.errorf "found no status on job")

module _ {W C E Time : Type 0} (api : JobApi W E Time) where
  -- The error, or the manager with its lists filled.
  pub job_status : JobManager Time → M W C (Result E (JobManager Time))
  job_status j = do
    jobs ← ask (api.list_jobs j.namespace j.owner_key j.name)
    elim jobs [
      | err e ↦ pure (err e)
      | ok items ↦ pure (
          ok (record j {
            active_jobs = (sort_jobs items).0;
            failed_jobs = (sort_jobs items).1;
            successful_jobs = (sort_jobs items).2;
          }))
    ]

module _ {W C E Time : Type 0} (L : Library E Time) (api : JobApi W E Time) where
  -- The status, with the manager as `Status` leaves it.
  unfoldable pub status : JobManager Time → M W C (Result E JobStatus × JobManager Time)
  unfolding job_status
  status j = do
    r ← job_status api j
    elim r [ err e ↦ pure (err e, j) | ok j' ↦ pure (classify L j', j') ]

module _ {W C E Time : Type 0} (L : Library E Time) (api : JobApi W E Time) (log : JobLog C) where
  -- A job that is gone already is no error.
  unfoldable pub join_deletion : Option E → Option E → Option E
  join_deletion multi_err none = multi_err
  join_deletion multi_err (some e) =
      if L.is_not_found e then multi_err else L.join multi_err (some e)

  -- The loop of `Delete`.
  pub delete_jobs : List (Job Time) → Option E → M W C (Option E)
  unfolding join_deletion
  delete_jobs [] multi_err = pure multi_err
  delete_jobs (job ∷ jobs) multi_err = elim (is_zero job.deletion_timestamp) [
    | false ↦ delete_jobs jobs multi_err
    | true ↦ tell (log.deleted job.name) (api.delete_job job) >>= λ e.
        delete_jobs jobs (join_deletion multi_err e)
  ]

  unfoldable pub delete : JobManager Time → M W C (Option E)
  unfolding delete_jobs all
  delete j = delete_jobs (all j) none

  -- Create: the specification, or its error, comes from the owner's function.
  unfoldable pub create : M W C (Result E JobSpec) → M W C (Option E)
  create job_spec_func = do
    spec ← job_spec_func
    elim spec [
      | err e ↦ pure (some (L.errorf ("failed to create job spec: " <> L.error_text e)))
      | ok s ↦ tell (log.created s) (api.create_job s)
    ]
