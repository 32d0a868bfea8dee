-- ===== src/Jobs/Results.antt =====
-- internal/controller/jobs/job.go: Result, which folds the termination logs of the containers of all
-- finished jobs into one result, and the functions below it. Logging is left out.
pub mod Verdicts
pub mod Quiet
use etos.Prelude.{
  Bool, true, false, not, ◌&&◌, Option, none, some, String, ◌<>◌, List, [], ◌∷◌, ◌++◌,
  if◌then◌else◌, ◌~◌,
}
use etos.Kube.{Library}
use etos.Kube.Monad.{Sys, Result, ok, err, M, ◌>>=◌, pure, ask}
use etos.Kube.Pod.{Job, ContainerStatus, Pod}
use etos.Jobs.Types.{
  JobResult, JobApi, conclusion_successful, conclusion_failed, verdict_failed, verdict_none,
}
use etos.Jobs.{JobManager, successful, failed}

-- The zero value of `Result`, with a conclusion.
abbrev pub concluded : String → JobResult
concluded conclusion = record { conclusion = conclusion; verdict = ""; description = "" }

-- The first status of that name.
unfoldable pub find_container : List ContainerStatus → String → Option ContainerStatus
find_container [] name = none
find_container (s ∷ statuses) name = if s.name ~ name then some s else find_container statuses name

-- The folding of one container's result into the overarching one.
pub merge : JobResult → JobResult → JobResult
merge result job_result = record result {
  conclusion =
      if (job_result.conclusion ~ conclusion_failed) && not (result.conclusion ~ conclusion_failed)
      then conclusion_failed
      else result.conclusion;
  verdict =
      if (job_result.verdict ~ verdict_failed) && not (result.verdict ~ verdict_failed)
      then job_result.verdict
      else if result.verdict ~ verdict_none
      then job_result.verdict
      else result.verdict;
}

unfoldable pub finished_jobs : {Time : Type 0} → JobManager Time → List (Job Time)
finished_jobs j = if successful j then j.successful_jobs else if failed j then j.failed_jobs else []

pub conclude : JobResult → JobResult
conclude result =
    if result.conclusion ~ conclusion_failed
    then result
    else record result { conclusion = conclusion_successful }

module _ {W E Time : Type 0} (L : Library E Time) (api : JobApi W E Time) where
  -- The result of a container whose status was found.
  pub read_status : ContainerStatus → JobResult × Option E
  read_status s = elim s.terminated [
    | none ↦
        (concluded conclusion_failed, some (L.errorf "could not read termination log from pod"))
    | some message ↦ elim (api.parse_result message) [
      | none ↦
          let failed_with = concluded conclusion_failed in
          (record failed_with { description = message }, none)
      | some result ↦ (result, none)
    ]
  ]

  -- terminationLog.
  unfoldable pub termination_log : Pod Time → String → JobResult × Option E
  unfolding find_container read_status
  termination_log pod name = elim (find_container pod.container_statuses name) [
    | some s ↦ read_status s
    | none ↦ elim (find_container pod.init_container_statuses name) [
      | some s ↦ read_status s
      | none ↦ (concluded conclusion_failed, some (L.errorf "found no container status for pod"))
    ]
  ]

  -- The description that a container's result gets if it has an error or none.
  pub describe : String → JobResult × Option E → JobResult
  describe manager_name (r, error) =
      let said : String = elim error [ none ↦ r.description | some e ↦ L.error_text e ] in
      record r {
        description =
            if said ~ ""
            then "No description on pod " <> (manager_name <> " - Unknown error")
            else said;
      }

  -- The loop over the containers of a pod.
  pub merge_containers : String → Pod Time → List String → JobResult → JobResult
  merge_containers manager_name pod [] result = result
  merge_containers manager_name pod (name ∷ names) result =
      let job_result = describe manager_name (termination_log pod name) in
      merge_containers manager_name pod names (
        merge
          (record result {
            description =
                result.description <> ("; " <> (name <> (": " <> job_result.description)));
          })
          job_result)

  -- getLatestPodByCreationTimestamp, on a list that is not empty.
  unfoldable pub latest_pod : Pod Time → List (Pod Time) → Pod Time
  latest_pod latest [] = latest
  latest_pod latest (pod ∷ pods) =
      latest_pod (if L.after pod.creation_timestamp latest.creation_timestamp then pod else latest)
        pods

  -- A result that ends the loop over the jobs.
  pub give_up : JobResult → String → String → JobResult
  give_up result job_name why = record result {
    description = result.description <> ("; " <> (job_name <> (": " <> (why <> job_name))));
    conclusion = conclusion_failed;
  }

  -- One round of the loop over the jobs, from the answer to the listing of the job's pods; the flag
  -- says whether the loop goes on.
  pub merge_job :
      String → List String → Job Time → JobResult → Result E (List (Pod Time)) → JobResult × Bool
  unfolding give_up
  merge_job manager_name names job result (err e) =
      (give_up result job.name "could not list pods for job ", false)
  merge_job manager_name names job result (ok []) =
      (give_up result job.name "no pods found for job ", false)
  merge_job manager_name names job result (ok (pod ∷ pods)) =
      (merge_containers manager_name (latest_pod pod pods) names result, true)

  -- The loop over the jobs.
  pub merge_jobs :
      {C : Type 0} → String → List String → List (Job Time) → JobResult → M W C JobResult
  unfolding merge_job
  merge_jobs manager_name names [] result = pure result
  merge_jobs manager_name names (job ∷ jobs) result =
      ask (api.list_pods job.namespace job.name) >>= λ pods.
      let merged = merge_job manager_name names job result pods in
      elim merged.1 [ true ↦ merge_jobs manager_name names jobs merged.0 | false ↦ pure merged.0 ]

  -- Result. The containers in the variadic argument come before the first one.
  unfoldable pub result : {C : Type 0} → JobManager Time → String → List String → M W C JobResult
  unfolding merge_jobs conclude finished_jobs
  result j container_name container_names = do
    merged ←
        merge_jobs j.name (container_names ++ container_name ∷ []) (finished_jobs j)
          (record { conclusion = ""; verdict = verdict_none; description = "" })
    pure (conclude merged)
