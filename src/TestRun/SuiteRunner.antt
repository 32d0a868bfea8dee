-- ===== src/TestRun/SuiteRunner.antt =====
-- internal/controller/testrun_controller.go: reconcileSuiteRunner.
use etos.Prelude.{Bool, false, not, ◌||◌, Option, none, some, String, ◌<>◌, [], if◌then◌else◌, ◌~◌}
use etos.Kube.{Condition, Library, condition, is_zero}
use etos.Kube.Monad.{M, ◌>>=◌, pure}
use etos.Jobs.Types.{JobResult, JobStatus, conclusion_failed, verdict_inconclusive, verdict_none}
use etos.Jobs.{JobManager, create, delete}
use etos.Jobs.Results.{result}
use etos.Controller.{is_status_reason, set_condition, set_inconclusive_verdict_if_unset}
use etos.Controller.Reasons.{
  status_environment, status_suite_runner, reason_pending, reason_starting, reason_active,
  reason_failed, reason_completed,
}
use etos.TestRun.Types.{
  TestRun, TestRunApi, EventPublisher, Shutdown, Call, Step, job_log, finish, finish_joined,
  finish_if, publish,
}
use etos.TestRun.SuiteRunnerJob.{suite_runner_job}
use etos.TestRun.Requests.{delete_environment_requests}

abbrev pub shutdown_of : JobResult → Shutdown
shutdown_of r = record {
  conclusion = r.conclusion;
  verdict = r.verdict;
  description = r.description;
}

-- The shutdown of a suite runner that failed, with that description.
abbrev pub failed_shutdown : String → Shutdown
failed_shutdown description = record {
  conclusion = conclusion_failed;
  verdict = verdict_inconclusive;
  description = description;
}

-- The result of a failed job: its verdict is never unset.
unfoldable pub failed_result : JobResult → JobResult
failed_result r = record r {
  verdict =
      if (r.verdict ~ "") || (r.verdict ~ verdict_none) then verdict_inconclusive else r.verdict;
}

unfoldable pub successful_result : JobResult → JobResult
successful_result r = record r { verdict = if r.verdict ~ "" then verdict_none else r.verdict }

module _ {W E Time Span : Type 0} (L : Library E Time) (api : TestRunApi W E Time Span) where
  abbrev pub suite_runner : String → String → String → Condition Time
  suite_runner status reason message = condition L status_suite_runner status reason message

  -- SetStatusCondition on the test run.
  abbrev pub set_on :
      TestRun Time Span → Condition Time → M W (Call Time Span) (TestRun Time Span × Bool)
  set_on tr c = set_condition L api.now tr.conditions c >>= λ set.
      pure (record tr { conditions = set.0 }, set.1)

  -- A job that has ended: the verdict, the condition, and the shutdown event if that is a change.
  unfoldable pub end_suite_runner :
      EventPublisher W E
      → TestRun Time Span
      → JobResult
      → Condition Time
      → M W (Call Time Span) (Step E Time Span)
  unfolding finish
  end_suite_runner publisher tr r c = set_on (record tr { verdict = r.verdict }) c >>= λ set.
      if set.1
      then (publish api publisher set.0 (shutdown_of r) >>= λ _. finish api set.0)
      else pure (set.0, false, none)

  -- The condition after a job that was successful, of which a container may have failed.
  unfoldable pub end_condition : JobResult → Condition Time
  end_condition r =
      if r.conclusion ~ conclusion_failed
      then suite_runner "False" reason_failed r.description
      else suite_runner "True" reason_completed r.description

  unfoldable pub follow_active_job : TestRun Time Span → M W (Call Time Span) (Step E Time Span)
  unfolding finish_if
  follow_active_job tr =
      let tr' = record tr { verdict = if tr.verdict ~ "" then verdict_none else tr.verdict } in
      set_on tr' (suite_runner "True" reason_active "Job is running") >>= λ set.
      finish_if api (set.1 || (tr.verdict ~ "")) set.0

  -- The end of a job that could not be created, for which the condition was changed or not.
  unfoldable pub settle_not_created :
      EventPublisher W E → E → TestRun Time Span → Bool → M W (Call Time Span) (Step E Time Span)
  unfolding finish
  settle_not_created publisher e tr changed =
      let verdict = set_inconclusive_verdict_if_unset tr.verdict in
      let settled = record tr { verdict = verdict.0 } in
      if changed
      then (publish api publisher tr
            (failed_shutdown ("Failed to create suite runner job: " <> L.error_text e))
          >>= λ _. finish api settled)
      else if verdict.1
      then finish api settled
      else pure (tr, false, some e)

  -- What follows a job that could not be created.
  unfoldable pub not_created :
      EventPublisher W E → TestRun Time Span → E → M W (Call Time Span) (Step E Time Span)
  unfolding settle_not_created
  not_created publisher tr e =
      (if is_status_reason L tr.conditions status_suite_runner reason_failed
        then pure (tr, false)
        else set_on tr (suite_runner "False" reason_failed (L.error_text e)))
      >>= λ set. settle_not_created publisher e set.0 set.1

  -- What follows the attempt to create the job.
  unfoldable pub after_create :
      EventPublisher W E → TestRun Time Span → Option E → M W (Call Time Span) (Step E Time Span)
  unfolding not_created finish_if
  after_create publisher tr (some e) = not_created publisher tr e
  after_create publisher tr none =
      set_on tr (suite_runner "False" reason_starting "Suite runner job created") >>= λ set.
      finish_if api set.1 set.0

  -- The branch of a test run without jobs.
  unfoldable pub start_suite_runner :
      EventPublisher W E → TestRun Time Span → M W (Call Time Span) (Step E Time Span)
  unfolding after_create
  start_suite_runner publisher tr =
      if not (is_zero tr.metadata.deletion_timestamp)
      then pure (tr, false, none)
      else if is_status_reason L tr.conditions status_suite_runner reason_starting
      then pure (tr, false, none)
      else (create L api.jobs job_log (suite_runner_job api tr) >>= λ created.
          after_create publisher tr created)

  -- The switch on the status of the jobs.
  unfoldable pub follow_jobs :
      EventPublisher W E
      → JobStatus
      → JobManager Time
      → TestRun Time Span
      → M W (Call Time Span) (Step E Time Span)
  unfolding end_suite_runner end_condition follow_active_job start_suite_runner failed_result
      successful_result
  follow_jobs publisher JobStatus.failed j tr = result L api.jobs j tr.metadata.name [] >>= λ r.
      end_suite_runner publisher tr (failed_result r)
        (suite_runner "False" reason_failed r.description)
  follow_jobs publisher JobStatus.successful j tr = result L api.jobs j tr.metadata.name [] >>= λ r.
      end_suite_runner publisher tr (successful_result r) (end_condition r)
  follow_jobs publisher JobStatus.active j tr = follow_active_job tr
  follow_jobs publisher JobStatus.none j tr = start_suite_runner publisher tr

  -- The branch of a suite runner that has failed: its jobs and requests are deleted, and the verdict
  -- is set if it was not.
  unfoldable pub clean_up_failed :
      EventPublisher W E
      → JobManager Time
      → TestRun Time Span
      → M W (Call Time Span) (Step E Time Span)
  unfolding finish_joined
  clean_up_failed publisher j tr =
      let verdict = set_inconclusive_verdict_if_unset tr.verdict in
      let settled = record tr { verdict = verdict.0 } in
      publish api publisher tr (failed_shutdown "SuiteRunner job failed") >>= λ _.
      delete L api.jobs job_log j >>= λ of_jobs.
      delete_environment_requests L api settled >>= λ of_requests.
      finish_joined L api verdict.1 settled (L.join of_jobs of_requests)

  unfoldable pub reconcile_suite_runner :
      EventPublisher W E
      → JobStatus
      → JobManager Time
      → TestRun Time Span
      → M W (Call Time Span) (Step E Time Span)
  unfolding follow_jobs clean_up_failed finish
  reconcile_suite_runner publisher js j tr =
      elim (L.find_status_condition tr.conditions status_suite_runner) [
        | none ↦ set_on tr (suite_runner "False" reason_pending "Reconciliation started") >>= λ set.
            finish api set.0
        | some _ ↦
            if is_status_reason L tr.conditions status_suite_runner reason_failed
            then clean_up_failed publisher j tr
            else if is_status_reason L tr.conditions status_environment reason_completed
            then follow_jobs publisher js j tr
            else pure (tr, false, none)
      ]
