-- ===== src/Jobs/Deletion.antt =====
-- Which jobs Delete deletes.
use etos.Prelude.{
  ◌≡◌, refl, ◌∙◌, ap, Option, none, String, List, [], ◌∷◌, ◌++◌, map, arith, if◌then◌else◌,
}
use etos.Kube.{Library, is_zero}
use etos.Kube.Monad.{Sys, Keeps, logged}
use etos.Kube.Pod.{Job}
use etos.Jobs.Types.{JobApi, JobLog}
use etos.Jobs.{JobManager, new_job, all, join_deletion, delete_jobs, delete}

-- The jobs that are not being deleted yet.
abbrev pub kept : {Time : Type 0} → List (Job Time) → List (Job Time)
kept [] = []
kept (job ∷ jobs) =
    let rest = kept jobs in if is_zero job.deletion_timestamp then job ∷ rest else rest

module _ {W C E Time : Type 0} (L : Library E Time) (api : JobApi W E Time) (log : JobLog C) where
  abbrev deletions : List (Job Time) → List C
  deletions jobs = map (λ (job : Job Time). log.deleted job.name) (kept jobs)

  delete_jobs-calls :
      (jobs : List (Job Time)) (e : Option E) (s : Sys W C)
      → (delete_jobs L api log jobs e s).1.calls ≡ logged (deletions jobs) s.calls
  unfolding delete_jobs
  delete_jobs-calls [] e s = refl
  delete_jobs-calls (job ∷ jobs) e s =
      let sent = api.delete_job job s.server in
      ground (
        arith,
        delete_jobs-calls jobs e s,
        delete_jobs-calls jobs (join_deletion L api log e sent.0)
            (record { server = sent.1; calls = log.deleted job.name ∷ s.calls }),
      )

logged-deleted :
    {C Time X : Type 0} (log : JobLog C) (f : List C → X)
    → ((name : String) (calls : List C) → f (log.deleted name ∷ calls) ≡ f calls)
    → (jobs : List (Job Time)) (calls : List C)
    → f (logged (map (λ (job : Job Time). log.deleted job.name) jobs) calls) ≡ f calls
logged-deleted log f same [] calls = refl
logged-deleted log f same (job ∷ jobs) calls =
    logged-deleted log f same jobs (log.deleted job.name ∷ calls) ∙ same job.name calls

-- Delete sends one deletion for each job of the manager that is not being deleted already, in the order
-- active, failed, successful, whatever the earlier ones answered, and makes no other call.
pub delete-calls :
    {W C E Time : Type 0} (L : Library E Time) (api : JobApi W E Time) (log : JobLog C)
    (j : JobManager Time) (s : Sys W C)
    → (delete L api log j s).1.calls
      ≡ logged
          (map
            (λ (job : Job Time). log.deleted job.name)
            (kept (j.active_jobs ++ (j.failed_jobs ++ j.successful_jobs))))
          s.calls
unfolding delete
delete-calls L api log j s = delete_jobs-calls L api log (all j) none s

-- On a manager whose Status was never asked, Delete does nothing.
pub delete-new_job :
    {W C E Time : Type 0} (L : Library E Time) (api : JobApi W E Time) (log : JobLog C)
    (key name namespace : String) (s : Sys W C)
    → delete L api log (new_job key name namespace) s ≡ (none, s)
unfolding delete new_job
delete-new_job L api log key name namespace s = refl

-- What no deletion of a job changes, Delete does not change.
pub delete-Keeps :
    {W C E Time X : Type 0} (L : Library E Time) (api : JobApi W E Time) (log : JobLog C)
    (f : List C → X)
    → ((name : String) (calls : List C) → f (log.deleted name ∷ calls) ≡ f calls)
    → (j : JobManager Time) → Keeps f (delete {W = W} L api log j)
unfolding all
delete-Keeps L api log f same j s =
    ap f (delete-calls L api log j s) ∙ logged-deleted log f same (kept (all j)) s.calls
