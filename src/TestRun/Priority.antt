-- ===== src/TestRun/Priority.antt =====
-- The condition Active that reconcileActiveStatus gives, against a table of priorities.
use etos.Prelude.{
  ◌≡◌, Bool, false, Option, none, some, Option-cases, inl, inr, String, List, arith, if◌then◌else◌,
  ◌~◌,
}
use etos.Kube.{Condition, Library}
use etos.Controller.{is_status_reason}
use etos.Controller.Reasons.{
  status_environment, status_suite_runner, reason_active, reason_failed, reason_completed,
}
use etos.TestRun.Active.{Draft, unknown, draft_failure, draft_active}

-- What a failed or an active part says, by the part's condition: the message of a failed one.
abbrev pub failure_of : {Time : Type 0} → Option (Condition Time) → Option String
failure_of none = none
failure_of (some c) = if c.reason ~ reason_failed then some c.message else none

abbrev pub has_reason : {Time : Type 0} → Option (Condition Time) → String → Bool
has_reason none reason = false
has_reason (some c) reason = c.reason ~ reason

abbrev pub failure : String → Draft
failure message = record { status = "False"; reason = reason_failed; message = message }

-- The table, from the highest priority down: the suite runner is completed, it has failed, the
-- environment has failed, the suite runner is active.
abbrev pub by_priority : {Time : Type 0} → Option (Condition Time) → Option (Condition Time) → Draft
by_priority environment suite_runner =
    if has_reason suite_runner reason_completed
    then record {
      status = "False";
      reason = reason_completed;
      message = "Suite runners finished successfully";
    }
    else elim (failure_of suite_runner) [
      | some message ↦ failure message
      | none ↦ elim (failure_of environment) [
        | some message ↦ failure message
        | none ↦
            if has_reason suite_runner reason_active
            then record {
              status = "True";
              reason = reason_active;
              message = "Waiting for suite runners to finish";
            }
            else unknown
      ]
    ]

module _ {E Time : Type 0} (L : Library E Time) where
  -- The tests of reconcileActiveStatus, of which a later one overwrites an earlier one, agree with the
  -- first entry that holds of a table: suite runner completed, suite runner failed, environment failed,
  -- suite runner active, and else nothing is known.
  pub draft_active-by_priority :
      (cs : List (Condition Time))
      → draft_active L cs
        ≡ by_priority
            (L.find_status_condition cs status_environment)
            (L.find_status_condition cs status_suite_runner)
  unfolding draft_active draft_failure is_status_reason
  draft_active-by_priority cs =
      elim (Option-cases (L.find_status_condition cs status_environment)) [
        | inl e ↦ elim (Option-cases (L.find_status_condition cs status_suite_runner)) [
          | inl r ↦ rw (e, r, draft_active, draft_failure, is_status_reason) (ground arith)
          | inr (c, r) ↦ rw (e, r, draft_active, draft_failure, is_status_reason) (ground arith)
        ]
        | inr (d, e) ↦ elim (Option-cases (L.find_status_condition cs status_suite_runner)) [
          | inl r ↦ rw (e, r, draft_active, draft_failure, is_status_reason) (ground arith)
          | inr (c, r) ↦ rw (e, r, draft_active, draft_failure, is_status_reason) (ground arith)
        ]
      ]
