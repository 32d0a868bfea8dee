-- ===== src/TestRun/Tests.antt =====
-- The reconciler of test runs on a small cluster.
use mathlib.Core.List.{Perm, map, flatten}
use mathlib.Core.List.Permᴰ
use etos.Prelude.{
  ℕ, ◌+◌, ◌≤◌, ◌≡◌, ◌≢◌, ◌⊎◌, refl, not, none, some, List, [], ◌∷◌, arith, if◌then◌else◌,
}
use etos.Kube.Example.{library, library-IsLawful}
use etos.Kube.Monad.{logged}
use etos.Jobs.Types.{JobStatus}
use etos.Jobs.{status, create}
use etos.Controller.{is_status_reason}
use etos.Controller.Reasons.{
  status_active, status_environment, status_suite_runner, reason_completed, reason_active,
}
use etos.TestRun.Types.{TestRun, NewRequest, created_request}
use etos.TestRun.Grouping.{wanted, tests_of, Each}
use etos.TestRun.Requests.{is_requested, create_environment_requests}
use etos.TestRun.Creation.{create_environment_requests-Perm}
use etos.TestRun.Consistent.{IsSound}
use etos.TestRun.Consistent.Whole.{reconcile_running-IsSound}
use etos.TestRun.Expiry.{
  runs_deleted, cleaned, expired, reconcile_completed-safe, reconcile_completed-deleted,
}
use etos.TestRun.Retained.{manager, retention_of, reconcile_completed}
use etos.TestRun.Priority.{by_priority, draft_active-by_priority}
use etos.TestRun.Sent.{
  NothingKnown, DraftSent, DraftThere, entry, entry_changes, reconcile_active_status-entry,
}
use etos.TestRun.Active.{draft_active, reconcile_active_status}
use etos.TestRun.SuiteRunner.{reconcile_suite_runner}
use etos.TestRun.Quiet.{jobs_created}
use etos.TestRun.Starting.{
  MayStart, IsReady, reconcile_suite_runner-created, reconcile_suite_runner-created_once,
}
use etos.TestRun.{reconcile_running}
use etos.TestRun.Example.{condition_of, suite, test_run, cluster, api, at}

-- A test run that may start its suite runner.
abbrev ready : TestRun ℕ ℕ
ready =
    test_run
      (condition_of status_environment reason_completed
        ∷ condition_of status_suite_runner "Pending"
        ∷ [])
      none

create_environment_requests-Perm_example :
    (news : List NewRequest) × ((create_environment_requests api suite []
        (test_run [] none)
        cluster
        (at 7)).1.calls
      ≡ logged (map created_request news) [])
    × Perm
        (flatten (map (λ (n : NewRequest). n.spec.tests) news))
        (wanted (λ r. not (is_requested api [] suite.name r)) suite.tests)
    × Each
        (λ (n : NewRequest). n.spec.tests ≡ tests_of n.spec.providers.test_runner_image suite.tests)
        news
unfolding create_environment_requests
create_environment_requests-Perm_example =
    create_environment_requests-Perm api suite [] (test_run [] none) cluster (at 7)
      (λ groups w. Permᴰ.refl groups) refl

reconcile_running-IsSound_example :
    IsSound library (reconcile_running library api "etos" ready (at 7)).1.calls
reconcile_running-IsSound_example =
    reconcile_running-IsSound library api library-IsLawful "etos" ready (at 7) refl tt

abbrev over : TestRun ℕ ℕ
over = test_run (condition_of status_active "Completed" ∷ []) (some 20)

reconcile_completed-safe_example : (reconcile_completed library api over 20 (at 25)).0 ≢ none
reconcile_completed-safe_example = reconcile_completed-safe library api over 20 (at 25) refl refl

reconcile_completed-deleted_example :
    runs_deleted (reconcile_completed library api over 20 (at 40)).1.calls
    ≡ 0
      + (if expired library api
            (api.now (cleaned library api over (at 40)).server).0
            20
            (retention_of library api (condition_of status_active "Completed") over.spec.retention)
          then 1
          else 0)
unfolding status etos.Jobs.classify etos.Jobs.sort_jobs
reconcile_completed-deleted_example =
    reconcile_completed-deleted library api over 20 (condition_of status_active "Completed")
      JobStatus.none (at 40) refl refl

abbrev active : TestRun ℕ ℕ
active =
    test_run
      (condition_of status_active "Pending" ∷ condition_of status_suite_runner reason_active ∷ [])
      none

draft_active-by_priority_example :
    draft_active library active.conditions
    ≡ by_priority none (some (condition_of status_suite_runner reason_active))
draft_active-by_priority_example = draft_active-by_priority library active.conditions

reconcile_active_status-entry_example :
    NothingKnown
      (entry library api active)
      []
      (reconcile_active_status library api active (at 7)).1.calls
    ⊎ (DraftSent library
          (entry library api active)
          (entry_changes library api active (at 7))
          []
          (reconcile_active_status library api active (at 7)).1.calls
        ⊎ DraftThere library
            (entry library api active)
            (entry_changes library api active (at 7))
            active
            []
            (reconcile_active_status library api active (at 7)).1.calls)
reconcile_active_status-entry_example =
    reconcile_active_status-entry library api library-IsLawful active
      (condition_of status_active "Pending") (at 7) refl refl

one_created :
    jobs_created
      (reconcile_suite_runner library api
        (λ _ _ w. (none, w))
        JobStatus.none
        (manager ready)
        ready
        (at 7)).1.calls
    ≡ 1
unfolding reconcile_suite_runner is_status_reason create
    etos.TestRun.SuiteRunnerJob.suite_runner_job
one_created = refl

reconcile_suite_runner-created_example :
    MayStart library ready × (JobStatus.none ≡ JobStatus.none) × IsReady library ready
reconcile_suite_runner-created_example =
    reconcile_suite_runner-created library api (λ _ _ w. (none, w)) JobStatus.none (manager ready)
      ready (at 7) (omega (arith, one_created))

reconcile_suite_runner-created_once_example :
    jobs_created
      (reconcile_suite_runner library api
        (λ _ _ w. (none, w))
        JobStatus.none
        (manager ready)
        ready
        (at 7)).1.calls
    ≤ 1
reconcile_suite_runner-created_once_example =
    reconcile_suite_runner-created_once library api (λ _ _ w. (none, w)) JobStatus.none
      (manager ready) ready (at 7)
