-- ===== src/Jobs/Results/Quiet.antt =====
-- Reading results and sorting jobs makes no call that changes something.
use etos.Prelude.{◌≡◌, refl, String, List, [], ◌∷◌, arith}
use etos.Kube.{Library}
use etos.Kube.Monad.{Sys}
use etos.Kube.Pod.{Job}
use etos.Jobs.Types.{JobResult, JobApi}
use etos.Jobs.{JobManager}
use etos.Jobs.Results.{merge_job, merge_jobs, result}

module _ {W C E Time : Type 0} (L : Library E Time) (api : JobApi W E Time) where
  merge_jobs-calls :
      (m : String) (names : List String) (jobs : List (Job Time)) (r : JobResult) (s : Sys W C)
      → (merge_jobs L api m names jobs r s).1.calls ≡ s.calls
  unfolding merge_jobs
  merge_jobs-calls m names [] r s = refl
  merge_jobs-calls m names (job ∷ jobs) r s =
      let listed = api.list_pods job.namespace job.name s.server in
      ground (
        arith,
        merge_jobs-calls m names jobs (merge_job L api m names job r listed.0).0
            (record s { server = listed.1 }),
      )

  pub result-calls :
      (j : JobManager Time) (name : String) (names : List String) (s : Sys W C)
      → (result L api j name names s).1.calls ≡ s.calls
  unfolding result
  result-calls j name names s = merge_jobs-calls j.name _ _ _ s
