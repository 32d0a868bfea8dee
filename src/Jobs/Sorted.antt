-- ===== src/Jobs/Sorted.antt =====
-- The status of the jobs of an owner, and how the jobs are sorted for it.
use mathlib.Core.List.{Perm, perm_middle, perm-append_left_iff}
use mathlib.Core.List.Perm
use etos.Prelude.{
  ltb, ◌≡◌, refl, Bool, true, false, ◌||◌, List, [], ◌∷◌, ◌++◌, length, if◌then◌else◌, arith, inl,
  inr, Bool-cases,
}
use etos.Kube.{Library}
use etos.Kube.Monad.{Sys, Result, ok, err}
use etos.Kube.Pod.{Job}
use etos.Jobs.Types.{JobStatus, JobApi}
use etos.Jobs.{JobManager, is_job_condition, is_job_finished, sort_jobs, all, classify, status}

-- What a job has come to, read from its conditions.
pub data Phase : Type 0 where
  running complete broken : Phase

abbrev pub is_running : Phase → Bool
is_running running = true
is_running _ = false

abbrev pub is_complete : Phase → Bool
is_complete complete = true
is_complete _ = false

abbrev pub is_broken : Phase → Bool
is_broken broken = true
is_broken _ = false

module _ {Time : Type 0} where
  abbrev pub phase : Job Time → Phase
  phase job =
      if is_job_condition job.conditions "Complete" "True"
      then complete
      else if is_job_condition job.conditions "Failed" "True"
      then broken
      else running

  abbrev pub some_job : (Phase → Bool) → List (Job Time) → Bool
  some_job p [] = false
  some_job p (job ∷ jobs) = let rest = some_job p jobs in p (phase job) || rest

  abbrev place :
      Phase
      → Job Time
      → List (Job Time) × List (Job Time) × List (Job Time)
      → List (Job Time) × List (Job Time) × List (Job Time)
  place running job rest = (job ∷ rest.0, rest.1, rest.2)
  place broken job rest = (rest.0, job ∷ rest.1, rest.2)
  place complete job rest = (rest.0, rest.1, job ∷ rest.2)

  sort_jobs-cons :
      (job : Job Time) (jobs : List (Job Time))
      → sort_jobs (job ∷ jobs) ≡ place (phase job) job (sort_jobs jobs)
  unfolding sort_jobs is_job_finished
  sort_jobs-cons job jobs = elim (Bool-cases (is_job_condition job.conditions "Complete" "True")) [
    | inl c ↦ rw c
    | inr c ↦ elim (Bool-cases (is_job_condition job.conditions "Failed" "True")) [
      | inl f ↦ rw (c, f)
      | inr f ↦ rw (c, f)
    ]
  ]

  sorted_place :
      (p : Phase) (job : Job Time) (jobs : List (Job Time))
      → (ltb 0 (length (sort_jobs jobs).0) ≡ some_job is_running jobs)
        × (ltb 0 (length (sort_jobs jobs).1) ≡ some_job is_broken jobs)
        × (ltb 0 (length (sort_jobs jobs).2) ≡ some_job is_complete jobs)
      → (ltb 0 (length (place p job (sort_jobs jobs)).0)
          ≡ (is_running p || some_job is_running jobs))
        × (ltb 0 (length (place p job (sort_jobs jobs)).1)
            ≡ (is_broken p || some_job is_broken jobs))
        × (ltb 0 (length (place p job (sort_jobs jobs)).2)
            ≡ (is_complete p || some_job is_complete jobs))
  sorted_place running job jobs h = ground arith
  sorted_place complete job jobs h = ground arith
  sorted_place broken job jobs h = ground arith

  sorted :
      (jobs : List (Job Time))
      → (ltb 0 (length (sort_jobs jobs).0) ≡ some_job is_running jobs)
        × (ltb 0 (length (sort_jobs jobs).1) ≡ some_job is_broken jobs)
        × (ltb 0 (length (sort_jobs jobs).2) ≡ some_job is_complete jobs)
  sorted [] = unfold sort_jobs in (refl, refl, refl)
  sorted (job ∷ jobs) = rw sort_jobs-cons (sorted_place (phase job) job jobs (sorted jobs))

  place-Perm :
      (p : Phase) (job : Job Time) (rest : List (Job Time) × List (Job Time) × List (Job Time))
      → Perm
          ((place p job rest).0 ++ ((place p job rest).1 ++ (place p job rest).2))
          (job ∷ (rest.0 ++ (rest.1 ++ rest.2)))
  place-Perm running job (a, f, c) = Perm.refl (job ∷ (a ++ (f ++ c)))
  place-Perm broken job (a, f, c) = perm_middle a (f ++ c)
  place-Perm complete job (a, f, c) =
      Perm.trans ((perm-append_left_iff a).1 (perm_middle f c)) (perm_middle a (f ++ c))

  -- The jobs of the three lists together are those of the list.
  sort_jobs-Perm :
      (jobs : List (Job Time))
      → Perm ((sort_jobs jobs).0 ++ ((sort_jobs jobs).1 ++ (sort_jobs jobs).2)) jobs
  sort_jobs-Perm [] = unfold sort_jobs in Perm.refl []
  sort_jobs-Perm (job ∷ jobs) = rw sort_jobs-cons (
      Perm.trans (place-Perm (phase job) job (sort_jobs jobs))
        (Perm.cons job (sort_jobs-Perm jobs)))

abbrev filled : {Time : Type 0} → JobManager Time → List (Job Time) → JobManager Time
filled j jobs = record j {
  active_jobs = (sort_jobs jobs).0;
  failed_jobs = (sort_jobs jobs).1;
  successful_jobs = (sort_jobs jobs).2;
}

module _ {E Time : Type 0} where
  -- The status of a list of jobs, in words: jobs that run beside finished ones are an error.
  abbrev pub expected : E → List (Job Time) → Result E JobStatus
  expected e jobs =
      if some_job is_running jobs
      then (if some_job is_complete jobs || some_job is_broken jobs
          then err e
          else ok JobStatus.active)
      else if some_job is_complete jobs
      then ok JobStatus.successful
      else if some_job is_broken jobs
      then ok JobStatus.failed
      else ok JobStatus.none

  classify-sorted :
      (L : Library E Time) (j : JobManager Time) (jobs : List (Job Time))
      → j.active_jobs ≡ (sort_jobs jobs).0
      → j.failed_jobs ≡ (sort_jobs jobs).1
      → j.successful_jobs ≡ (sort_jobs jobs).2
      → classify L j ≡ expected (L.errorf "found no status on job") jobs
  unfolding classify
  classify-sorted L j jobs a f s = ground (arith, sorted jobs)

  abbrev pub answer : E → Result E (List (Job Time)) → Result E JobStatus
  answer e (err x) = err x
  answer e (ok jobs) = expected e jobs

  -- What the manager holds after the jobs were asked for.
  abbrev pub Holds : JobManager Time → Result E (List (Job Time)) → JobManager Time → Type 0
  Holds before (err x) j = j ≡ before
  Holds before (ok jobs) j = Perm (all j) jobs

  -- What Status returns, by what the API server answers.
  abbrev answered :
      Library E Time
      → JobManager Time
      → Result E (List (Job Time))
      → Result E JobStatus × JobManager Time
  answered L j (err x) = (err x, j)
  answered L j (ok jobs) = (classify L (filled j jobs), filled j jobs)

module _ {W E Time : Type 0} (L : Library E Time) (api : JobApi W E Time) where
  status-answered :
      {C : Type 0} (j : JobManager Time) (s : Sys W C)
      → status L api j s ≡ (
        answered L j (api.list_jobs j.namespace j.owner_key j.name s.server).0,
        record s { server = (api.list_jobs j.namespace j.owner_key j.name s.server).1 },
      )
  unfolding status
  status-answered j s = ground arith

  answered_lem :
      (j : JobManager Time) (r : Result E (List (Job Time)))
      → ((answered L j r).0 ≡ answer (L.errorf "found no status on job") r)
        × Holds j r (answered L j r).1
  unfolding all
  answered_lem j (err x) = (refl, refl)
  answered_lem j (ok jobs) =
      (classify-sorted L (filled j jobs) jobs refl refl refl, sort_jobs-Perm jobs)

-- Status fails if the jobs cannot be listed, and then the manager is as it was. Otherwise, of the
-- listed jobs: if one still runs, the status is active, or an error if another has finished; if none
-- runs, one complete job makes it successful, else one failed job makes it failed, and without jobs it
-- is none. The manager then holds exactly the listed jobs. No call is made that changes something.
pub status_lem :
    {W C E Time : Type 0} (L : Library E Time) (api : JobApi W E Time) (j : JobManager Time)
    (s : Sys W C)
    → ((status L api j s).0.0
        ≡ answer
            (L.errorf "found no status on job")
            (api.list_jobs j.namespace j.owner_key j.name s.server).0)
      × Holds j (api.list_jobs j.namespace j.owner_key j.name s.server).0 (status L api j s).0.1
      × ((status L api j s).1.calls ≡ s.calls)
unfolding status all
status_lem L api j s =
    let (said, held) =
      answered_lem L api j (api.list_jobs j.namespace j.owner_key j.name s.server).0 in
    rw (status-answered L api j s) (said, held, refl)
