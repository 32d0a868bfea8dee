-- ===== src/TestRun/Starting.antt =====
-- When the reconciler creates the suite runner job of a test run.
use etos.Prelude.{
  ℕ, ◌+◌, ◌≤◌, ◌<◌, ◌≡◌, refl, ap, ◌∙◌, Bool, true, false, ◌||◌, Option, none, some, Bool-cases,
  Option-cases, inl, inr, [], arith, if◌then◌else◌, ◌~◌,
}
use etos.Kube.{Condition, Library, is_zero}
use etos.Kube.Monad.{Sys, Keeps}
use etos.Jobs.Types.{JobResult, JobStatus, verdict_none}
use etos.Jobs.{JobManager, create, delete}
use etos.Jobs.Deletion.{delete-Keeps}
use etos.Jobs.Results.{result}
use etos.Jobs.Results.Quiet.{result-calls}
use etos.Controller.{is_status_reason, set_inconclusive_verdict_if_unset}
use etos.Controller.Reasons.{
  status_environment, status_suite_runner, reason_starting, reason_active, reason_failed,
  reason_completed,
}
use etos.TestRun.Types.{
  TestRun, TestRunApi, EventPublisher, Call, job_log, finish, finish_if, finish_joined,
  update_status, publish,
}
use etos.TestRun.Requests.{delete_environment_requests}
use etos.TestRun.Quiet.{jobs_created, suite_runner_job-calls, delete_environment_requests-Keeps}
use etos.TestRun.SuiteRunnerJob.{suite_runner_job}
use etos.TestRun.SuiteRunner.{
  set_on, suite_runner, failed_result, successful_result, end_condition, failed_shutdown,
  end_suite_runner, follow_active_job, settle_not_created, not_created, after_create,
  start_suite_runner, follow_jobs, clean_up_failed, reconcile_suite_runner,
}

-- What a test run must be for a job to be created for it.
pub record MayStart {E Time Span : Type 0} (L : Library E Time) (tr : TestRun Time Span)
    : Type 0 where
  pub not_deleted : is_zero tr.metadata.deletion_timestamp ≡ true
  pub not_starting : is_status_reason L tr.conditions status_suite_runner reason_starting ≡ false

-- What its conditions must be.
pub record IsReady {E Time Span : Type 0} (L : Library E Time) (tr : TestRun Time Span)
    : Type 0 where
  pub known :
      (c : Condition Time) × (L.find_status_condition tr.conditions status_suite_runner ≡ some c)
  pub not_failed : is_status_reason L tr.conditions status_suite_runner reason_failed ≡ false
  pub environment : is_status_reason L tr.conditions status_environment reason_completed ≡ true

none_created : {a b : ℕ} {X : Type 0} → a ≡ b → (a ≤ b + 1) × (b < a → X)
none_created e = (omega arith, λ more. absurd (omega arith))

module _ {W E Time Span : Type 0} (L : Library E Time) (api : TestRunApi W E Time Span) where
  finish_if-created : (b : Bool) (tr : TestRun Time Span) → Keeps jobs_created (finish_if api b tr)
  unfolding finish_if finish update_status
  finish_if-created true tr s = refl
  finish_if-created false tr s = refl

  end_suite_runner-created :
      (publisher : EventPublisher W E) (tr : TestRun Time Span) (r : JobResult) (c : Condition Time)
      → Keeps jobs_created (end_suite_runner L api publisher tr r c)
  unfolding end_suite_runner finish update_status
  end_suite_runner-created publisher tr r c s = ground arith

  settle_not_created-created :
      (publisher : EventPublisher W E) (e : E) (tr : TestRun Time Span) (changed : Bool)
      → Keeps jobs_created (settle_not_created L api publisher e tr changed)
  unfolding settle_not_created finish update_status
  settle_not_created-created publisher e tr changed s = ground arith

  not_created-created :
      (publisher : EventPublisher W E) (tr : TestRun Time Span) (e : E)
      → Keeps jobs_created (not_created L api publisher tr e)
  unfolding not_created
  not_created-created publisher tr e s =
      let set = set_on L api tr (suite_runner L api "False" reason_failed (L.error_text e)) s in
      elim (Bool-cases (is_status_reason L tr.conditions status_suite_runner reason_failed)) [
        | inl failed ↦ rw (failed, not_created) (settle_not_created-created publisher e tr false s)
        | inr new ↦
            rw (new, not_created) (settle_not_created-created publisher e set.0.0 set.0.1 set.1)
      ]

  after_create-created :
      (publisher : EventPublisher W E) (tr : TestRun Time Span) (e : Option E)
      → Keeps jobs_created (after_create L api publisher tr e)
  unfolding after_create
  after_create-created publisher tr (some e) s = not_created-created publisher tr e s
  after_create-created publisher tr none s =
      let set =
        set_on L api tr (suite_runner L api "False" reason_starting "Suite runner job created") s in
      finish_if-created set.0.1 set.0.0 set.1

  create-created :
      (tr : TestRun Time Span) (s : Sys W (Call Time Span))
      → jobs_created (create L api.jobs job_log (suite_runner_job api tr) s).1.calls
        ≤ jobs_created s.calls + 1
  unfolding create
  create-created tr s = ground (arith, suite_runner_job-calls api tr s)

  start_suite_runner-created :
      (publisher : EventPublisher W E) (tr : TestRun Time Span) (s : Sys W (Call Time Span))
      → (jobs_created (start_suite_runner L api publisher tr s).1.calls ≤ jobs_created s.calls + 1)
        × (jobs_created s.calls < jobs_created (start_suite_runner L api publisher tr s).1.calls
            → MayStart L tr)
  unfolding start_suite_runner
  start_suite_runner-created publisher tr s =
      let made = create L api.jobs job_log (suite_runner_job api tr) s in
      let after = after_create-created publisher tr made.0 made.1 in
      let once = create-created tr s in
      (
        ground (arith, after, once),
        λ more. record { not_deleted = ground arith; not_starting = ground arith },
      )

  follow_jobs-created :
      (publisher : EventPublisher W E) (js : JobStatus) (j : JobManager Time)
      (tr : TestRun Time Span) (s : Sys W (Call Time Span))
      → (jobs_created (follow_jobs L api publisher js j tr s).1.calls ≤ jobs_created s.calls + 1)
        × (jobs_created s.calls < jobs_created (follow_jobs L api publisher js j tr s).1.calls
            → MayStart L tr × (js ≡ JobStatus.none))
  unfolding follow_jobs follow_active_job
  follow_jobs-created publisher JobStatus.failed j tr s =
      let r = result L api.jobs j tr.metadata.name [] s in
      none_created (
        end_suite_runner-created publisher tr (failed_result r.0)
          (suite_runner L api "False" reason_failed r.0.description) r.1
        ∙ ap jobs_created (result-calls L api.jobs j tr.metadata.name [] s))
  follow_jobs-created publisher JobStatus.successful j tr s =
      let r = result L api.jobs j tr.metadata.name [] s in
      none_created (
        end_suite_runner-created publisher tr (successful_result r.0) (end_condition L api r.0) r.1
        ∙ ap jobs_created (result-calls L api.jobs j tr.metadata.name [] s))
  follow_jobs-created publisher JobStatus.active j tr s =
      let tr' = record tr { verdict = if tr.verdict ~ "" then verdict_none else tr.verdict } in
      let set = set_on L api tr' (suite_runner L api "True" reason_active "Job is running") s in
      none_created (finish_if-created (set.0.1 || (tr.verdict ~ "")) set.0.0 set.1)
  follow_jobs-created publisher JobStatus.none j tr s =
      let (once, may) = start_suite_runner-created publisher tr s in
      (once, λ more. (may more, refl))

  finish_joined-created :
      (b : Bool) (tr : TestRun Time Span) (e : Option E)
      → Keeps jobs_created (finish_joined L api b tr e)
  unfolding finish_joined update_status
  finish_joined-created true tr e s = refl
  finish_joined-created false tr e s = refl

  clean_up_failed-created :
      (publisher : EventPublisher W E) (j : JobManager Time) (tr : TestRun Time Span)
      → Keeps jobs_created (clean_up_failed L api publisher j tr)
  unfolding clean_up_failed
  clean_up_failed-created publisher j tr s =
      let verdict = set_inconclusive_verdict_if_unset tr.verdict in
      let settled = record tr { verdict = verdict.0 } in
      let told = (publish api publisher tr (failed_shutdown "SuiteRunner job failed") s).1 in
      let of_jobs = delete L api.jobs job_log j told in
      let of_requests = delete_environment_requests L api settled of_jobs.1 in
      finish_joined-created verdict.1 settled (L.join of_jobs.0 of_requests.0) of_requests.1
      ∙ delete_environment_requests-Keeps L api jobs_created (λ name log. refl) settled of_jobs.1
      ∙ delete-Keeps L api.jobs job_log jobs_created (λ name log. refl) j told

  created_lem :
      (publisher : EventPublisher W E) (js : JobStatus) (j : JobManager Time)
      (tr : TestRun Time Span) (s : Sys W (Call Time Span))
      → (jobs_created (reconcile_suite_runner L api publisher js j tr s).1.calls
          ≤ jobs_created s.calls + 1)
        × (jobs_created s.calls
              < jobs_created (reconcile_suite_runner L api publisher js j tr s).1.calls
            → MayStart L tr × (js ≡ JobStatus.none) × IsReady L tr)
  unfolding reconcile_suite_runner finish update_status
  created_lem publisher js j tr s =
      elim (Option-cases (L.find_status_condition tr.conditions status_suite_runner)) [
        | inl new ↦ rw (new, reconcile_suite_runner) (none_created refl)
        | inr (c, there) ↦
            elim (Bool-cases (is_status_reason L tr.conditions status_suite_runner reason_failed)) [
              | inl bad ↦
                  rw (there, bad, reconcile_suite_runner)
                    (none_created (clean_up_failed-created publisher j tr s))
              | inr good ↦
                  elim (Bool-cases
                    (is_status_reason L tr.conditions status_environment reason_completed)) [
                      | inl ready ↦
                          let (once, may) = follow_jobs-created publisher js j tr s in
                          rw (there, good, ready, reconcile_suite_runner)
                            (
                              once,
                              λ more. (
                                (may more).0,
                                (may more).1,
                                record {
                                  known = (c, there);
                                  not_failed = good;
                                  environment = ready;
                                },
                              ),
                            )
                      | inr waits ↦
                          rw (there, good, waits, reconcile_suite_runner) (none_created refl)
                    ]
            ]
      ]

  -- One run of reconcileSuiteRunner creates at most one job.
  pub reconcile_suite_runner-created_once :
      (publisher : EventPublisher W E) (js : JobStatus) (j : JobManager Time)
      (tr : TestRun Time Span) (s : Sys W (Call Time Span))
      → jobs_created (reconcile_suite_runner L api publisher js j tr s).1.calls
        ≤ jobs_created s.calls + 1
  reconcile_suite_runner-created_once publisher js j tr s = (created_lem publisher js j tr s).0

  -- If reconcileSuiteRunner creates a job, then the test run is not being deleted, the status of its
  -- jobs is that there are none, its condition SuiteRunner is there with a reason that is neither
  -- Failed nor Starting, and the reason of its condition Environment is Completed.
  pub reconcile_suite_runner-created :
      (publisher : EventPublisher W E) (js : JobStatus) (j : JobManager Time)
      (tr : TestRun Time Span) (s : Sys W (Call Time Span))
      → jobs_created s.calls
        < jobs_created (reconcile_suite_runner L api publisher js j tr s).1.calls
      → MayStart L tr × (js ≡ JobStatus.none) × IsReady L tr
  reconcile_suite_runner-created publisher js j tr s more = (created_lem publisher js j tr s).1 more
