-- ===== src/TestRun/Retained.antt =====
-- internal/controller/testrun_controller.go: the branch of Reconcile for a test run that has completed,
-- which is deleted at the end of its retention. A nil pointer that is read is `none`.
use etos.Prelude.{Option, none, some, if◌then◌else◌, ◌~◌}
use etos.Kube.{Condition, Library}
use etos.Kube.Monad.{Result, ok, err, M, ◌>>=◌, pure, ask, tell}
use etos.Jobs.Types.{JobStatus}
use etos.Jobs.{JobManager, new_job, status, delete}
use etos.Controller.{Outcome, done, requeue_after}
use etos.Controller.Reasons.{status_active, reason_completed}
use etos.TestRun.Types.{TestRun, TestRunApi, Retention, Call, job_log, deleted}
use etos.TestRun.Requests.{owner_key, delete_environment_requests}

-- What Reconcile returns, or a nil pointer was read.
abbrev pub Answer : Type 0 → Type 0 → Type 0
Answer E Span = Option (Outcome Span × Option E)

module _ {Time Span : Type 0} where
  abbrev pub manager : TestRun Time Span → JobManager Time
  manager tr = new_job owner_key tr.metadata.name tr.metadata.namespace

module _ {W E Time Span : Type 0} (L : Library E Time) (api : TestRunApi W E Time Span) where
  -- The time for which a test run that has completed is kept.
  unfoldable pub retention_of : Condition Time → Retention Span → Option Span
  retention_of active retention =
      if active.reason ~ reason_completed then retention.success else retention.failure

  -- The deletion of a test run at the end of its retention.
  unfoldable pub check_retention :
      TestRun Time Span → Time → Span → M W (Call Time Span) (Outcome Span × Option E)
  check_retention tr completed retention = ask api.now >>= λ t.
      if L.after t (api.add completed retention)
      then (tell (deleted tr) (api.delete tr) >>= λ _. pure (done, none))
      else (ask api.now >>= λ t'.
          pure (requeue_after (api.until (api.add completed retention) t'), none))

  -- A completed test run, after the clean-up.
  unfoldable pub retain :
      TestRun Time Span → Time → Option (Condition Time) → M W (Call Time Span) (Answer E Span)
  unfolding retention_of check_retention
  retain tr completed none = pure none
  retain tr completed (some active) = elim (retention_of active tr.spec.retention) [
    | none ↦ pure (some (done, none))
    | some retention ↦ check_retention tr completed retention >>= λ r. pure (some r)
  ]

  -- The clean-up of a completed test run, of which errors are ignored.
  unfoldable pub clean_up : TestRun Time Span → JobManager Time → M W (Call Time Span) (Option E)
  clean_up tr j = delete L api.jobs job_log j >>= λ _. delete_environment_requests L api tr

  -- What follows the status of the jobs.
  unfoldable pub finish_completed :
      TestRun Time Span
      → Time
      → Result E JobStatus
      → JobManager Time
      → M W (Call Time Span) (Answer E Span)
  unfolding retain clean_up
  finish_completed tr completed (err e) j = pure (some (done, some e))
  finish_completed tr completed (ok _) j = clean_up tr j >>= λ _.
      retain tr completed (L.find_status_condition tr.conditions status_active)

  -- The branch of a test run that has completed.
  unfoldable pub reconcile_completed :
      TestRun Time Span → Time → M W (Call Time Span) (Answer E Span)
  unfolding finish_completed
  reconcile_completed tr completed =
      status L api.jobs (manager tr) >>= λ r. finish_completed tr completed r.0 r.1
