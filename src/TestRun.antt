-- ===== src/TestRun.antt =====
-- internal/controller/testrun_controller.go: the reconciler of test runs.
--
-- Reconcile is `reconcile_test_run`, the method reconcile is `reconcile`. The methods that reconcile a
-- part change the test run in place: they return it, with whether they have updated it on the server
-- and an error (`Step`). What the cluster, the message bus and the clock answer is `TestRunApi`. A nil
-- pointer that is read is `none`. Logging is left out.
pub mod Types
pub mod Active
pub mod Priority
pub mod Sent
pub mod Groups
pub mod Grouping
pub mod NewRequest
pub mod Traceparent
pub mod Requests
pub mod Creation
pub mod Consistent
pub mod Quiet
pub mod SuiteRunnerJob
pub mod SuiteRunner
pub mod Environments
pub mod Deadline
pub mod Retained
pub mod Expiry
pub mod Starting
pub mod Example
mod Tests
use Types.{
  TestRun, TestRunApi, Retention, Cluster, EventPublisher, Shutdown, Call, Step, job_log, deleted,
  finish_joined, publish,
}
use Active.{reconcile_active_status}
use Traceparent.{maybe_add_traceparent_label}
use Requests.{owner_key, delete_environment_requests}
use SuiteRunner.{set_on, reconcile_suite_runner}
use Environments.{reconcile_environment_request, check_environment}
use etos.Prelude.{
  Bool, true, false, not, ◌||◌, Option, none, some, String, ◌<>◌, List, [], if◌then◌else◌, ◌~◌,
}
use etos.Kube.{Condition, Library, condition, is_zero}
use etos.Kube.Monad.{Result, ok, err, M, ◌>>=◌, pure, ask, tell}
use etos.Jobs.Types.{JobStatus, verdict_inconclusive}
use etos.Jobs.{JobManager, new_job, status, delete}
use etos.Controller.{
  Outcome, done, requeue, requeue_after, check_providers, set_inconclusive_verdict_if_unset,
}
use etos.Controller.Reasons.{status_active, reason_failed, reason_timed_out, reason_completed}
use Deadline.{check_deadline}
use Retained.{Answer, manager, reconcile_completed}

module _ {W E Time Span : Type 0} (L : Library E Time) (api : TestRunApi W E Time Span) where
  -- One part after another: a part that has updated the test run, or failed, is the last.
  unfoldable pub and_then :
      Step E Time Span
      → (TestRun Time Span → M W (Call Time Span) (TestRun Time Span × Option E))
      → M W (Call Time Span) (TestRun Time Span × Option E)
  and_then (tr, true, e) rest = pure (tr, e)
  and_then (tr, false, some e) rest = pure (tr, some e)
  and_then (tr, false, none) rest = rest tr

  -- The providers are not available: the test run fails.
  unfoldable pub fail_providers :
      TestRun Time Span → E → M W (Call Time Span) (TestRun Time Span × Option E)
  unfolding finish_joined
  fail_providers tr e =
      set_on L api tr (condition L status_active "False" reason_failed (L.error_text e)) >>= λ set.
      let tr' = set.0 in
      let verdict = set_inconclusive_verdict_if_unset tr'.verdict in
      let settled = record tr' { verdict = verdict.0 } in
      finish_joined L api (set.1 || verdict.1) settled (some e) >>= λ r. pure (r.0, r.2)

  -- The last two parts, from the status of the jobs on.
  unfoldable pub after_status :
      EventPublisher W E
      → TestRun Time Span
      → Result E JobStatus
      → JobManager Time
      → M W (Call Time Span) (TestRun Time Span × Option E)
  unfolding and_then reconcile_suite_runner reconcile_active_status
  after_status publisher tr (err e) j = pure (tr, some e)
  after_status publisher tr (ok js) j =
      reconcile_suite_runner L api publisher js j tr >>= λ of_runner. and_then of_runner (λ tr'.
        reconcile_active_status L api tr' >>= λ of_active.
        and_then of_active (λ tr''. pure (tr'', none)))

  unfoldable pub follow_jobs_of :
      EventPublisher W E → TestRun Time Span → M W (Call Time Span) (TestRun Time Span × Option E)
  unfolding after_status
  follow_jobs_of publisher tr =
      status L api.jobs (manager tr) >>= λ r. after_status publisher tr r.0 r.1

  -- The parts, from the environment requests on.
  unfoldable pub follow_parts :
      Cluster
      → EventPublisher W E
      → TestRun Time Span
      → M W (Call Time Span) (TestRun Time Span × Option E)
  unfolding and_then reconcile_environment_request check_environment follow_jobs_of
  follow_parts cluster publisher tr =
      reconcile_environment_request L api cluster publisher tr >>= λ of_requests.
      and_then of_requests (λ tr'. check_environment L api tr' >>= λ of_environment.
      and_then of_environment (follow_jobs_of publisher))

  -- What follows the check of the providers.
  unfoldable pub after_check :
      Cluster
      → EventPublisher W E
      → TestRun Time Span
      → Option E
      → M W (Call Time Span) (TestRun Time Span × Option E)
  unfolding fail_providers follow_parts
  after_check cluster publisher tr (some e) = fail_providers tr e
  after_check cluster publisher tr none = follow_parts cluster publisher tr

  -- The method reconcile.
  unfoldable pub reconcile :
      Cluster
      → EventPublisher W E
      → TestRun Time Span
      → M W (Call Time Span) (TestRun Time Span × Option E)
  unfolding after_check
  reconcile cluster publisher tr =
      check_providers L api.get_provider tr.metadata.namespace tr.spec.providers >>= λ checked.
      after_check cluster publisher tr checked

  -- What follows the method reconcile.
  unfoldable pub after_reconcile :
      EventPublisher W E
      → TestRun Time Span
      → Option E
      → M W (Call Time Span) (Outcome Span × Option E)
  unfolding check_deadline
  after_reconcile publisher tr none = check_deadline L api publisher tr
  after_reconcile publisher tr (some e) =
      if L.is_conflict e then pure (requeue, none) else pure (done, some e)

  -- What follows the answer of GetPublisher.
  unfoldable pub with_publisher :
      Cluster
      → TestRun Time Span
      → Result E (EventPublisher W E)
      → M W (Call Time Span) (Outcome Span × Option E)
  unfolding reconcile after_reconcile
  with_publisher cluster tr (err e) = pure (done, some e)
  with_publisher cluster tr (ok publisher) =
      reconcile cluster publisher tr >>= λ r. after_reconcile publisher r.0 r.1

  -- What follows the reading of the cluster, of which an error is only logged.
  unfoldable pub with_cluster :
      TestRun Time Span → Result E Cluster → M W (Call Time Span) (Outcome Span × Option E)
  unfolding with_publisher
  with_cluster tr (err e) = pure (done, none)
  with_cluster tr (ok cluster) =
      ask (api.get_publisher cluster.namespace cluster.etos_message_bus) >>= λ got.
      with_publisher cluster tr got

  -- The branch of a test run that has not completed.
  unfoldable pub reconcile_running :
      String → TestRun Time Span → M W (Call Time Span) (Outcome Span × Option E)
  unfolding with_cluster
  reconcile_running namespace tr =
      ask (api.get_cluster namespace tr.spec.cluster) >>= λ found. with_cluster tr found

  -- Reconcile, from the check of the completion time on.
  unfoldable pub reconcile_existing :
      String → TestRun Time Span → M W (Call Time Span) (Answer E Span)
  unfolding reconcile_completed reconcile_running
  reconcile_existing namespace tr = elim tr.completion_time [
    | some completed ↦ reconcile_completed L api tr completed
    | none ↦ reconcile_running namespace tr >>= λ r. pure (some r)
  ]

  -- Reconcile, by namespace and name.
  unfoldable pub reconcile_test_run : String → String → M W (Call Time Span) (Answer E Span)
  unfolding reconcile_existing maybe_add_traceparent_label
  reconcile_test_run namespace name = ask (api.get namespace name) >>= λ found. elim found [
    | err e ↦ if L.is_not_found e then pure (some (done, none)) else pure (some (done, some e))
    | ok tr ↦ maybe_add_traceparent_label api tr >>= λ r. elim r.1 [
      | some e ↦ pure (some (done, some e))
      | none ↦ reconcile_existing namespace r.0
    ]
  ]
