-- ===== src/TestRun/Expiry.antt =====
-- What becomes of a test run that has completed.
use etos.Prelude.{
  ℕ, suc, ◌+◌, ◌≡◌, ◌≢◌, refl, ap, ◌∙◌, Bool, false, Option, none, some, Option-cases, inl, inr,
  List, [], ◌∷◌, arith, if◌then◌else◌,
}
use etos.Kube.{Condition, Library}
use etos.Kube.Monad.{Sys, Result, ok, err, Keeps}
use etos.Jobs.Types.{JobStatus}
use etos.Jobs.{JobManager, status, delete}
use etos.Jobs.Deletion.{delete-Keeps}
use etos.Jobs.Sorted.{status_lem}
use etos.Controller.Reasons.{status_active}
use etos.TestRun.Types.{
  TestRun, TestRunApi, Call, job_log, updated, updated_status, deleted, created_request,
  deleted_request, created_job, deleted_job, published,
}
use etos.TestRun.Quiet.{delete_environment_requests-Keeps}
use etos.TestRun.Consistent.{IsConsistent, IsOver}
use etos.TestRun.Retained.{
  manager, retention_of, check_retention, retain, clean_up, finish_completed, reconcile_completed,
}

-- How many test runs were deleted.
abbrev pub runs_deleted : {Time Span : Type 0} → List (Call Time Span) → ℕ
runs_deleted [] = 0
runs_deleted (deleted tr ∷ calls) = suc (runs_deleted calls)
runs_deleted (updated_status tr ∷ calls) = runs_deleted calls
runs_deleted (updated tr ∷ calls) = runs_deleted calls
runs_deleted (created_request n ∷ calls) = runs_deleted calls
runs_deleted (deleted_request name ∷ calls) = runs_deleted calls
runs_deleted (created_job spec ∷ calls) = runs_deleted calls
runs_deleted (deleted_job name ∷ calls) = runs_deleted calls
runs_deleted (published id event ∷ calls) = runs_deleted calls

module _ {W E Time Span : Type 0} (L : Library E Time) (api : TestRunApi W E Time Span) where
  -- The state after the status of the jobs and the clean-up.
  abbrev pub cleaned : TestRun Time Span → Sys W (Call Time Span) → Sys W (Call Time Span)
  cleaned tr s = let r = status L api.jobs (manager tr) s in (clean_up L api tr r.0.1 r.1).1

  -- The retention, if there is one, has passed at that time.
  abbrev pub expired : Time → Time → Option Span → Bool
  expired now completed none = false
  expired now completed (some retention) = L.after now (api.add completed retention)

  clean_up-deleted :
      (tr : TestRun Time Span) (j : JobManager Time) → Keeps runs_deleted (clean_up L api tr j)
  unfolding clean_up
  clean_up-deleted tr j s =
      let of_jobs = delete L api.jobs job_log j s in
      delete_environment_requests-Keeps L api runs_deleted (λ name log. refl) tr of_jobs.1
      ∙ delete-Keeps L api.jobs job_log runs_deleted (λ name log. refl) j s

  check_retention-deleted :
      (tr : TestRun Time Span) (completed : Time) (retention : Span) (s : Sys W (Call Time Span))
      → runs_deleted (check_retention L api tr completed retention s).1.calls
        ≡ runs_deleted s.calls
          + (if expired (api.now s.server).0 completed (some retention) then 1 else 0)
  unfolding check_retention
  check_retention-deleted tr completed retention s = ground arith

  retain-deleted :
      (tr : TestRun Time Span) (completed : Time) (active : Condition Time)
      (s : Sys W (Call Time Span))
      → ((retain L api tr completed (some active) s).0 ≢ none)
        × (runs_deleted (retain L api tr completed (some active) s).1.calls
            ≡ runs_deleted s.calls
              + (if expired
                    (api.now s.server).0
                    completed
                    (retention_of L api active tr.spec.retention)
                  then 1
                  else 0))
  unfolding retain
  retain-deleted tr completed active s =
      elim (Option-cases (retention_of L api active tr.spec.retention)) [
        | inl kept ↦ rw (kept, retain) (λ h. cc, omega arith)
        | inr (retention, given) ↦
            rw (given, retain) (λ h. cc, check_retention-deleted tr completed retention s)
      ]

  finish_completed-safe :
      (tr : TestRun Time Span) (completed : Time) (r : Result E JobStatus) (j : JobManager Time)
      (active : Condition Time) (s : Sys W (Call Time Span))
      → L.find_status_condition tr.conditions status_active ≡ some active
      → (finish_completed L api tr completed r j s).0 ≢ none
  unfolding finish_completed
  finish_completed-safe tr completed (err e) j active s found = λ h. cc
  finish_completed-safe tr completed (ok js) j active s found =
      rw (found, finish_completed) (retain-deleted tr completed active (clean_up L api tr j s).1).0

  -- The condition Active of a consistent test run that has completed.
  over-some :
      (t : Time) (c : Option (Condition Time))
      → IsOver (some t) c
      → (a : Condition Time) × (c ≡ some a)
  over-some t none h = absurd h
  over-some t (some a) h = (a, refl)

  -- The reconciliation of a completed test run that is consistent reads no nil pointer, whatever the
  -- API server answers.
  pub reconcile_completed-safe :
      (tr : TestRun Time Span) (t : Time) (s : Sys W (Call Time Span))
      → tr.completion_time ≡ some t
      → IsConsistent L tr
      → (reconcile_completed L api tr t s).0 ≢ none
  unfolding reconcile_completed
  reconcile_completed-safe tr t s over consistent =
      let (active, found) =
        over-some t (L.find_status_condition tr.conditions status_active) (rw over at consistent) in
      let r = status L api.jobs (manager tr) s in
      finish_completed-safe tr t r.0.0 r.0.1 active r.1 found

  -- A completed test run, the status of whose jobs can be read, is deleted if the retention for the
  -- reason of its condition Active is given and has passed after the clean-up, and is not deleted
  -- otherwise.
  pub reconcile_completed-deleted :
      (tr : TestRun Time Span) (t : Time) (active : Condition Time) (js : JobStatus)
      (s : Sys W (Call Time Span))
      → L.find_status_condition tr.conditions status_active ≡ some active
      → (status L api.jobs (manager tr) s).0.0 ≡ ok js
      → runs_deleted (reconcile_completed L api tr t s).1.calls
        ≡ runs_deleted s.calls
          + (if expired
                (api.now (cleaned tr s).server).0
                t
                (retention_of L api active tr.spec.retention)
              then 1
              else 0)
  unfolding reconcile_completed finish_completed
  reconcile_completed-deleted tr t active js s found read =
      let r = status L api.jobs (manager tr) s in
      let (_, _, quiet) = status_lem L api.jobs (manager tr) s in
      rw (read, found, reconcile_completed, finish_completed)
        ((retain-deleted tr t active (cleaned tr s)).1
          ∙ ap
              (λ n.
                n
                + (if expired (api.now (cleaned tr s).server).0 t
                      (retention_of L api active tr.spec.retention)
                    then 1
                    else 0))
              (clean_up-deleted tr r.0.1 r.1 ∙ ap runs_deleted quiet))
