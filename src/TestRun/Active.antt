-- ===== src/TestRun/Active.antt =====
-- internal/controller/testrun_controller.go: reconcileActiveStatus.
use etos.Prelude.{Bool, true, false, ◌&&◌, ◌||◌, none, some, String, List, if◌then◌else◌, ◌~◌}
use etos.Kube.{Condition, Library, condition}
use etos.Kube.Monad.{M, ◌>>=◌, pure, ask}
use etos.Jobs.Types.{verdict_none}
use etos.Controller.{is_status_reason, set_condition, set_inconclusive_verdict_if_unset}
use etos.Controller.Reasons.{
  status_active, status_environment, status_suite_runner, reason_pending, reason_active,
  reason_failed, reason_timed_out, reason_completed,
}
use etos.TestRun.Types.{TestRun, TestRunApi, Call, Step, finish, finish_if}

-- The variables `condition`, `reason` and `message`.
pub record Draft : Type 0 where
  pub status : String
  pub reason : String
  pub message : String

abbrev pub unknown : Draft
unknown = record { status = "Unknown"; reason = reason_pending; message = "Unknown status" }

module _ {E Time : Type 0} (L : Library E Time) where
  -- A failed part: its condition has the message.
  unfoldable pub draft_failure : List (Condition Time) → String → Draft → Draft
  draft_failure conditions kind draft =
      if is_status_reason L conditions kind reason_failed
      then elim (L.find_status_condition conditions kind) [
        | none ↦ draft
        | some c ↦ record { status = "False"; reason = reason_failed; message = c.message }
      ]
      else draft

  -- The four tests, of which a later one overwrites an earlier one.
  unfoldable pub draft_active : List (Condition Time) → Draft
  unfolding draft_failure
  draft_active conditions =
      let active : Draft =
        if is_status_reason L conditions status_suite_runner reason_active
        then record {
          status = "True";
          reason = reason_active;
          message = "Waiting for suite runners to finish";
        }
        else unknown in
      let environment = draft_failure conditions status_environment active in
      let suite_runner = draft_failure conditions status_suite_runner environment in
      if is_status_reason L conditions status_suite_runner reason_completed
      then record {
        status = "False";
        reason = reason_completed;
        message = "Suite runners finished successfully";
      }
      else suite_runner

module _ {W E Time Span : Type 0} (L : Library E Time) (api : TestRunApi W E Time Span) where
  -- A test run without a condition Active gets its first one.
  unfoldable pub start_active : TestRun Time Span → M W (Call Time Span) (Step E Time Span)
  unfolding finish
  start_active tr =
      set_condition L api.now tr.conditions
        (condition L status_active "False" reason_pending "Reconciliation started")
      >>= λ set. finish api (record tr {
        conditions = set.0;
        verdict = if tr.verdict ~ "" then verdict_none else tr.verdict;
      })

  -- What follows SetStatusCondition with the draft.
  unfoldable pub finish_active :
      TestRun Time Span
      → Draft
      → List (Condition Time) × Bool
      → M W (Call Time Span) (Step E Time Span)
  unfolding finish finish_if
  finish_active tr draft (conditions, true) =
      if draft.status ~ "False"
      then (ask api.now >>= λ t.
          finish api (record tr { conditions = conditions; completion_time = some t }))
      else finish api (record tr { conditions = conditions })
  finish_active tr draft (conditions, false) =
      let verdict = set_inconclusive_verdict_if_unset tr.verdict in
      let settle =
        (draft.status ~ "False")
        && ((draft.reason ~ reason_failed) || (draft.reason ~ reason_timed_out)) in
      finish_if api (settle && verdict.1)
        (record tr { conditions = conditions; verdict = if settle then verdict.0 else tr.verdict })

  -- The branch of a test run that has a condition Active.
  unfoldable pub follow_active : TestRun Time Span → M W (Call Time Span) (Step E Time Span)
  unfolding draft_active finish_active
  follow_active tr =
      let draft = draft_active L tr.conditions in
      if draft.status ~ "Unknown"
      then pure (tr, false, none)
      else (set_condition L api.now tr.conditions
            (condition L status_active draft.status draft.reason draft.message)
          >>= λ set. finish_active tr draft set)

  unfoldable pub reconcile_active_status :
      TestRun Time Span → M W (Call Time Span) (Step E Time Span)
  unfolding start_active follow_active
  reconcile_active_status tr = elim (L.find_status_condition tr.conditions status_active) [
    | none ↦ start_active tr
    | some _ ↦ follow_active tr
  ]
