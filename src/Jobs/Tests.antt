-- ===== src/Jobs/Tests.antt =====
-- The job manager on a cluster with a fixed list of jobs.
use etos.Prelude.{ℕ, ◌≡◌, ◌⊎◌, refl, Option, none, some, String, List, [], ◌∷◌, if◌then◌else◌, ◌~◌}
use etos.Kube.Example.{library}
use etos.Kube.Monad.{Sys, ok, err}
use etos.Kube.Pod.{Job, Pod}
use etos.Jobs.Types.{JobResult, JobApi, JobLog, conclusion_successful, conclusion_failed}
use etos.Jobs.{
  JobManager, classify, sort_jobs, is_job_finished, new_job, status, delete, successful,
}
use etos.Jobs.Results.{termination_log, result, finished_jobs, latest_pod, find_container}
use etos.Jobs.Sorted.{status_lem, answer, Holds}
use etos.Jobs.Results.Verdicts.{result-conclusion, result_single, result-Missing}
use etos.Jobs.Deletion.{delete-calls}

abbrev job : String → String → Option ℕ → Job ℕ
job name kind deletion = record {
  name = name;
  namespace = "etos";
  deletion_timestamp = deletion;
  conditions = (record { kind = kind; status = "True" }) ∷ [];
}

abbrev pub pod : Pod ℕ
pod = record {
  creation_timestamp = 1;
  container_statuses = (record { name = "environment-provider"; terminated = some "good" }) ∷ [];
  init_container_statuses = (record { name = "iut-provider"; terminated = some "bad" }) ∷ [];
}

abbrev parse : String → Option JobResult
parse text =
    if text ~ "good"
    then some (record { conclusion = "Successful"; verdict = "Passed"; description = "" })
    else some (record { conclusion = "Failed"; verdict = "None"; description = "" })

-- The world is the list of jobs; every job has one pod.
abbrev pub jobs_api : JobApi (List (Job ℕ)) String ℕ
jobs_api = record {
  list_jobs = λ _ _ _ jobs. (ok jobs, jobs);
  list_pods = λ _ _ jobs. (ok (pod ∷ []), jobs);
  create_job = λ spec jobs. (none, job spec.generate_name "" none ∷ jobs);
  delete_job = λ _ jobs. (some "not found", jobs);
  parse_result = parse;
}

abbrev start : List (Job ℕ) → Sys (List (Job ℕ)) String
start jobs = record { server = jobs; calls = [] }

abbrev log : JobLog String
log = record { created = λ spec. spec.generate_name; deleted = λ name. name }

abbrev mixed : List (Job ℕ)
mixed = job "a" "Failed" none ∷ job "b" "Complete" none ∷ job "c" "" (some 3) ∷ []

abbrev manager : JobManager ℕ
manager = new_job "owner" "request" "etos"

abbrev one_done : JobManager ℕ
one_done = record {
  owner_key = "owner";
  name = "request";
  namespace = "etos";
  active_jobs = [];
  successful_jobs = job "b" "Complete" none ∷ [];
  failed_jobs = [];
}

-- A running job beside finished ones is an error.
mixed_status : (status library jobs_api manager (start mixed)).0.0 ≡ err "found no status on job"
unfolding status new_job classify sort_jobs is_job_finished
mixed_status = refl

status_lem_example :
    ((status library jobs_api manager (start mixed)).0.0
      ≡ answer "found no status on job" (ok mixed))
    × Holds {E = String} manager (ok mixed) (status library jobs_api manager (start mixed)).0.1
    × ((status library jobs_api manager (start mixed)).1.calls ≡ [])
unfolding new_job
status_lem_example = status_lem library jobs_api manager (start mixed)

result-conclusion_example :
    ((result library jobs_api one_done "environment-provider" [] (start [])).0.conclusion
      ≡ conclusion_successful)
    ⊎ ((result library jobs_api one_done "environment-provider" [] (start [])).0.conclusion
        ≡ conclusion_failed)
result-conclusion_example =
    result-conclusion library jobs_api one_done "environment-provider" [] (start [])

result_single_example :
    ((result library jobs_api one_done "environment-provider"
        ("iut-provider" ∷ [])
        (start [])).0.conclusion
      ≡ conclusion_failed)
    × ((result library jobs_api one_done "environment-provider"
          ("iut-provider" ∷ [])
          (start [])).0.verdict
        ≡ "Passed")
unfolding finished_jobs successful termination_log latest_pod
result_single_example =
    result_single library jobs_api one_done "environment-provider" ("iut-provider" ∷ []) (start [])
      (job "b" "Complete" none) pod [] refl refl

-- The name of the environment is the name of no container.
result-Missing_example :
    (result library jobs_api one_done "environment-1" [] (start [])).0.conclusion
    ≡ conclusion_failed
unfolding finished_jobs find_container successful latest_pod
result-Missing_example =
    result-Missing library jobs_api one_done "environment-1" [] (start []) (job "b" "Complete" none)
      pod [] refl refl (refl, refl)

abbrev filled : JobManager ℕ
filled = record {
  owner_key = "owner";
  name = "request";
  namespace = "etos";
  active_jobs = job "c" "" (some 3) ∷ [];
  successful_jobs = job "b" "Complete" none ∷ [];
  failed_jobs = job "a" "Failed" none ∷ [];
}

delete-calls_example : (delete library jobs_api log filled (start mixed)).1.calls ≡ "b" ∷ "a" ∷ []
delete-calls_example = delete-calls library jobs_api log filled (start mixed)
