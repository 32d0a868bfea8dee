-- ===== src/TestRun/Consistent/Runner.antt =====
-- The part for the suite runner sends no status with a completion time.
use etos.Prelude.{
  ◌≡◌, refl, ◌∙◌, ap, Bool, false, not, ◌||◌, if◌then◌else◌, Option, none, some, Bool-cases,
  Option-cases, inl, inr, [], arith, ◌~◌,
}
use etos.Kube.{Condition, Library, is_zero}
use etos.Kube.Monad.{Sys}
use etos.Jobs.Types.{JobResult, JobStatus, verdict_none}
use etos.Jobs.{JobManager, create, delete}
use etos.Jobs.Deletion.{delete-Keeps}
use etos.Jobs.Results.{result}
use etos.Jobs.Results.Quiet.{result-calls}
use etos.Controller.Reasons.{
  reason_pending, reason_completed, status_environment, status_suite_runner, reason_active,
  reason_failed, reason_starting,
}
use etos.Controller.{is_status_reason, set_inconclusive_verdict_if_unset}
use etos.TestRun.Types.{TestRun, TestRunApi, EventPublisher, Call, publish, job_log}
use etos.TestRun.Quiet.{updates, suite_runner_job-calls, delete_environment_requests-Keeps}
use etos.TestRun.SuiteRunner.{
  set_on, suite_runner, failed_shutdown, end_suite_runner, follow_active_job, not_created,
  settle_not_created, after_create, start_suite_runner, follow_jobs, clean_up_failed,
  reconcile_suite_runner,
}
use etos.TestRun.SuiteRunnerJob.{suite_runner_job}
use etos.TestRun.Requests.{delete_environment_requests}
use etos.TestRun.Consistent.{
  IsSound, IsFine, finish_unset, if-IsFine, same-IsSound, finish_if-IsFine, finish_joined-IsFine,
}

module _ {W E Time Span : Type 0} (L : Library E Time) (api : TestRunApi W E Time Span) where
  end_suite_runner-IsFine :
      (publisher : EventPublisher W E) (tr : TestRun Time Span) (r : JobResult) (c : Condition Time)
      (s : Sys W (Call Time Span))
      → tr.completion_time ≡ none
      → IsSound L s.calls
      → IsFine L api (end_suite_runner L api publisher tr r c s)
  unfolding end_suite_runner
  end_suite_runner-IsFine publisher tr r c s unset h =
      let set = set_on L api (record tr { verdict = r.verdict }) c s in
      if-IsFine L api set.0.1 _ _ set.1 (finish_unset L api set.0.0 _ unset h)
        (record { sound = h; next = unset })

  follow_active_job-IsFine :
      (tr : TestRun Time Span) (s : Sys W (Call Time Span))
      → tr.completion_time ≡ none
      → IsSound L s.calls
      → IsFine L api (follow_active_job L api tr s)
  unfolding follow_active_job
  follow_active_job-IsFine tr s unset h =
      let tr' = record tr { verdict = if tr.verdict ~ "" then verdict_none else tr.verdict } in
      let set = set_on L api tr' (suite_runner L api "True" reason_active "Job is running") s in
      finish_if-IsFine L api (set.0.1 || (tr.verdict ~ "")) set.0.0 set.1 unset h

  settle_not_created-IsFine :
      (publisher : EventPublisher W E) (e : E) (tr : TestRun Time Span) (changed : Bool)
      (s : Sys W (Call Time Span))
      → tr.completion_time ≡ none
      → IsSound L s.calls
      → IsFine L api (settle_not_created L api publisher e tr changed s)
  unfolding settle_not_created
  settle_not_created-IsFine publisher e tr changed s unset h =
      let verdict = set_inconclusive_verdict_if_unset tr.verdict in
      let settled = record tr { verdict = verdict.0 } in
      if-IsFine L api changed _ _ s (finish_unset L api settled _ unset h) (
        if-IsFine L api verdict.1 _ _ s (finish_unset L api settled s unset h)
          (record { sound = h; next = tt }))

  not_created-IsFine :
      (publisher : EventPublisher W E) (tr : TestRun Time Span) (e : E) (s : Sys W (Call Time Span))
      → tr.completion_time ≡ none
      → IsSound L s.calls
      → IsFine L api (not_created L api publisher tr e s)
  unfolding not_created
  not_created-IsFine publisher tr e s unset h =
      let set = set_on L api tr (suite_runner L api "False" reason_failed (L.error_text e)) s in
      elim (Bool-cases (is_status_reason L tr.conditions status_suite_runner reason_failed)) [
        | inl failed ↦
            rw (failed, not_created) (settle_not_created-IsFine publisher e tr false s unset h)
        | inr new ↦
            rw (new, not_created)
              (settle_not_created-IsFine publisher e set.0.0 set.0.1 set.1 unset h)
      ]

  after_create-IsFine :
      (publisher : EventPublisher W E) (tr : TestRun Time Span) (e : Option E)
      (s : Sys W (Call Time Span))
      → tr.completion_time ≡ none
      → IsSound L s.calls
      → IsFine L api (after_create L api publisher tr e s)
  unfolding after_create
  after_create-IsFine publisher tr (some e) s unset h = not_created-IsFine publisher tr e s unset h
  after_create-IsFine publisher tr none s unset h =
      let set =
        set_on L api tr (suite_runner L api "False" reason_starting "Suite runner job created") s in
      finish_if-IsFine L api set.0.1 set.0.0 set.1 unset h

  create-updates :
      (tr : TestRun Time Span) (s : Sys W (Call Time Span))
      → updates (create L api.jobs job_log (suite_runner_job api tr) s).1.calls ≡ updates s.calls
  unfolding create
  create-updates tr s = ground (arith, suite_runner_job-calls api tr s)

  start_suite_runner-IsFine :
      (publisher : EventPublisher W E) (tr : TestRun Time Span) (s : Sys W (Call Time Span))
      → tr.completion_time ≡ none
      → IsSound L s.calls
      → IsFine L api (start_suite_runner L api publisher tr s)
  unfolding start_suite_runner
  start_suite_runner-IsFine publisher tr s unset h =
      let made = create L api.jobs job_log (suite_runner_job api tr) s in
      let pass : IsFine L api ((tr, false, none), s) = record { sound = h; next = unset } in
      if-IsFine L api (not (is_zero tr.metadata.deletion_timestamp)) _ _ s pass (
        if-IsFine L api (is_status_reason L tr.conditions status_suite_runner reason_starting) _ _ s
          pass
          (after_create-IsFine publisher tr made.0 made.1 unset
            (same-IsSound L api s.calls made.1.calls (create-updates tr s) h)))

  follow_jobs-IsFine :
      (publisher : EventPublisher W E) (js : JobStatus) (j : JobManager Time)
      (tr : TestRun Time Span) (s : Sys W (Call Time Span))
      → tr.completion_time ≡ none
      → IsSound L s.calls
      → IsFine L api (follow_jobs L api publisher js j tr s)
  unfolding follow_jobs
  follow_jobs-IsFine publisher JobStatus.failed j tr s unset h =
      let r = result L api.jobs j tr.metadata.name [] s in
      end_suite_runner-IsFine publisher tr _ _ r.1 unset (
        same-IsSound L api s.calls r.1.calls
          (ap updates (result-calls L api.jobs j tr.metadata.name [] s)) h)
  follow_jobs-IsFine publisher JobStatus.successful j tr s unset h =
      let r = result L api.jobs j tr.metadata.name [] s in
      end_suite_runner-IsFine publisher tr _ _ r.1 unset (
        same-IsSound L api s.calls r.1.calls
          (ap updates (result-calls L api.jobs j tr.metadata.name [] s)) h)
  follow_jobs-IsFine publisher JobStatus.active j tr s unset h =
      follow_active_job-IsFine tr s unset h
  follow_jobs-IsFine publisher JobStatus.none j tr s unset h =
      start_suite_runner-IsFine publisher tr s unset h

  clean_up_failed-IsFine :
      (publisher : EventPublisher W E) (j : JobManager Time) (tr : TestRun Time Span)
      (s : Sys W (Call Time Span))
      → tr.completion_time ≡ none
      → IsSound L s.calls
      → IsFine L api (clean_up_failed L api publisher j tr s)
  unfolding clean_up_failed
  clean_up_failed-IsFine publisher j tr s unset h =
      let verdict = set_inconclusive_verdict_if_unset tr.verdict in
      let settled = record tr { verdict = verdict.0 } in
      let told = (publish api publisher tr (failed_shutdown "SuiteRunner job failed") s).1 in
      let of_jobs = delete L api.jobs job_log j told in
      let of_requests = delete_environment_requests L api settled of_jobs.1 in
      finish_joined-IsFine L api verdict.1 settled (L.join of_jobs.0 of_requests.0) of_requests.1
        unset
        (same-IsSound L api s.calls of_requests.1.calls
          (delete_environment_requests-Keeps L api updates (λ name log. refl) settled of_jobs.1
            ∙ delete-Keeps L api.jobs job_log updates (λ name log. refl) j told)
          h)

  pub reconcile_suite_runner-IsFine :
      (publisher : EventPublisher W E) (js : JobStatus) (j : JobManager Time)
      (tr : TestRun Time Span) (s : Sys W (Call Time Span))
      → tr.completion_time ≡ none
      → IsSound L s.calls
      → IsFine L api (reconcile_suite_runner L api publisher js j tr s)
  unfolding reconcile_suite_runner
  reconcile_suite_runner-IsFine publisher js j tr s unset h =
      elim (Option-cases (L.find_status_condition tr.conditions status_suite_runner)) [
        | inl new ↦
            let set =
              set_on L api tr (suite_runner L api "False" reason_pending "Reconciliation started")
                s in
            rw (new, reconcile_suite_runner) (finish_unset L api set.0.0 set.1 unset h)
        | inr (c, there) ↦
            rw (there, reconcile_suite_runner)
              (if-IsFine L api (is_status_reason L tr.conditions status_suite_runner reason_failed)
                _ _ s (clean_up_failed-IsFine publisher j tr s unset h)
                (if-IsFine L api
                  (is_status_reason L tr.conditions status_environment reason_completed) _ _ s
                  (follow_jobs-IsFine publisher js j tr s unset h)
                  (record { sound = h; next = unset })))
      ]
