-- ===== src/TestRun/Deadline.antt =====
-- internal/controller/testrun_controller.go: the deadline of a test run, at the end of Reconcile.
use etos.Prelude.{Bool, true, false, Option, none, some, String, ◌<>◌, if◌then◌else◌}
use etos.Kube.{Library, condition}
use etos.Kube.Monad.{M, ◌>>=◌, pure, ask}
use etos.Jobs.Types.{verdict_inconclusive}
use etos.Controller.{Outcome, done, requeue_after, set_inconclusive_verdict_if_unset}
use etos.Controller.Reasons.{status_active, reason_timed_out}
use etos.TestRun.Types.{TestRun, TestRunApi, EventPublisher, Shutdown, Call, update_status, publish}
use etos.TestRun.SuiteRunner.{set_on}
use etos.Environment.TimeOut.{is_unset}

module _ {W E Time Span : Type 0} (L : Library E Time) (api : TestRunApi W E Time Span) where
  -- The shutdown event of a test run that has exceeded its deadline.
  abbrev pub timed_out : String → Shutdown
  timed_out description = record {
    conclusion = "TimedOut";
    verdict = verdict_inconclusive;
    description = description;
  }

  -- What follows SetStatusCondition, on the test run with its verdict.
  unfoldable pub settle_timed_out :
      EventPublisher W E
      → String
      → TestRun Time Span
      → Bool
      → Bool
      → M W (Call Time Span) (Outcome Span × Option E)
  unfolding update_status
  settle_timed_out publisher message tr true verdict_changed = ask api.now >>= λ t.
      let ended = record tr { completion_time = some t } in
      publish api publisher ended (timed_out message) >>= λ _.
      update_status api ended >>= λ r. pure (done, r.1)
  settle_timed_out publisher message tr false true = update_status api tr >>= λ r. pure (done, r.1)
  settle_timed_out publisher message tr false false = pure (done, none)

  -- A test run that has exceeded its deadline.
  unfoldable pub time_out :
      EventPublisher W E → TestRun Time Span → Time → M W (Call Time Span) (Outcome Span × Option E)
  unfolding settle_timed_out
  time_out publisher tr deadline =
      let message = "Testrun deadline of " <> (api.time_text deadline <> " exceeded") in
      set_on L api tr (condition L status_active "False" reason_timed_out message) >>= λ set.
      let tr' = set.0 in
      let verdict = set_inconclusive_verdict_if_unset tr'.verdict in
      settle_timed_out publisher message (record tr' { verdict = verdict.0 }) set.1 verdict.1

  -- The check of the deadline, at the end of Reconcile.
  unfoldable pub check_deadline :
      EventPublisher W E → TestRun Time Span → M W (Call Time Span) (Outcome Span × Option E)
  unfolding time_out
  check_deadline publisher tr =
      if is_unset tr.spec.deadline
      then pure (done, none)
      else (ask api.now >>= λ t.
          if L.after t (api.unix tr.spec.deadline)
          then time_out publisher tr (api.unix tr.spec.deadline)
          else (ask api.now >>= λ t'.
              pure (requeue_after (api.until (api.unix tr.spec.deadline) t'), none)))
