-- ===== src/TestRun/Environments.antt =====
-- internal/controller/testrun_controller.go: reconcileEnvironmentRequest and checkEnvironment.
use etos.Prelude.{
  Bool, true, false, ◌&&◌, Option, none, some, String, List, [], ◌∷◌, if◌then◌else◌, ◌~◌,
}
use etos.Kube.{Condition, ObjectMeta, Library, condition, is_zero}
use etos.Kube.Monad.{Result, ok, err, M, ◌>>=◌, pure, ask, tell}
use etos.Api.{EnvironmentRequest}
use etos.Controller.{is_status_reason, set_inconclusive_verdict_if_unset}
use etos.Controller.Reasons.{
  status_ready, status_environment, reason_pending, reason_failed, reason_completed,
}
use etos.TestRun.Types.{
  TestRun, TestRunApi, Cluster, EventPublisher, ObjectReference, Call, Step, deleted_request,
  finish, finish_joined, finish_if, publish,
}
use etos.TestRun.Requests.{listed, delete_environment_requests, create_for_suites}
use etos.TestRun.SuiteRunner.{set_on, failed_shutdown}

-- The condition Ready of a request that has failed.
unfoldable pub is_failure : {Time : Type 0} → Option (Condition Time) → Bool
is_failure none = false
is_failure (some c) = (c.status ~ "False") && (c.reason ~ reason_failed)

abbrev pub message_of : {Time : Type 0} → Option (Condition Time) → String
message_of none = ""
message_of (some c) = c.message

module _ {W E Time Span : Type 0} (L : Library E Time) (api : TestRunApi W E Time Span) where
  abbrev pub environment : String → String → String → Condition Time
  environment status reason message = condition L status_environment status reason message

  -- The references to the listed requests, less those that have none.
  unfoldable pub references : List (EnvironmentRequest Time) → List ObjectReference
  references [] = []
  references (request ∷ requests) = elim (api.get_reference request) [
    | ok r ↦ r ∷ references requests
    | err _ ↦ references requests
  ]

  -- The branch of a test run whose environment has failed.
  unfoldable pub clean_up_environment :
      EventPublisher W E → TestRun Time Span → M W (Call Time Span) (Step E Time Span)
  unfolding finish_joined
  clean_up_environment publisher tr =
      let verdict = set_inconclusive_verdict_if_unset tr.verdict in
      let settled = record tr { verdict = verdict.0 } in
      publish api publisher tr (failed_shutdown "Environment provisioning failed") >>= λ _.
      delete_environment_requests L api settled >>= λ of_requests.
      finish_joined L api verdict.1 settled of_requests

  -- The first failed request: it is recorded, and once it is there, the request is deleted.
  unfoldable pub fail_environment :
      TestRun Time Span → EnvironmentRequest Time → M W (Call Time Span) (Step E Time Span)
  unfolding finish
  fail_environment tr request =
      let message = message_of (L.find_status_condition request.conditions status_ready) in
      set_on L api tr (environment "False" reason_failed message) >>= λ set.
      let tr' = set.0 in
      if set.1
      then finish api (record tr' { verdict = (set_inconclusive_verdict_if_unset tr'.verdict).0 })
      else if is_zero request.metadata.deletion_timestamp
      then (tell (deleted_request request.metadata.name) (api.delete_request request) >>= λ _.
          pure (tr', false, none))
      else pure (tr', false, none)

  -- The loop over the requests.
  unfoldable pub check_requests :
      TestRun Time Span → List (EnvironmentRequest Time) → M W (Call Time Span) (Step E Time Span)
  unfolding fail_environment is_failure
  check_requests tr [] = pure (tr, false, none)
  check_requests tr (request ∷ requests) =
      elim (is_failure (L.find_status_condition request.conditions status_ready)) [
        | true ↦ fail_environment tr request
        | false ↦ check_requests tr requests
      ]

  -- What follows the creation of requests.
  unfoldable pub after_creation :
      TestRun Time Span
      → List (EnvironmentRequest Time)
      → Option E
      → M W (Call Time Span) (Step E Time Span)
  unfolding check_requests
  after_creation tr requests (some e) = pure (tr, false, some e)
  after_creation tr requests none = check_requests tr requests

  -- What is done with the listed requests, or with the error of listing them.
  unfoldable pub follow_requests :
      Cluster
      → TestRun Time Span
      → Result E (List (EnvironmentRequest Time))
      → M W (Call Time Span) (Step E Time Span)
  unfolding references after_creation create_for_suites
  follow_requests cluster tr (err e) = pure (tr, false, some e)
  follow_requests cluster tr (ok requests) =
      let tr' = record tr { environment_requests = references requests } in
      create_for_suites api tr.spec.suites requests tr' cluster >>= λ created.
      after_creation tr' requests created

  unfoldable pub reconcile_environment_request :
      Cluster → EventPublisher W E → TestRun Time Span → M W (Call Time Span) (Step E Time Span)
  unfolding clean_up_environment follow_requests listed finish
  reconcile_environment_request cluster publisher tr =
      elim (L.find_status_condition tr.conditions status_environment) [
        | none ↦
            set_on L api tr (environment "False" reason_pending "Reconciliation started") >>= λ set.
            finish api set.0
        | some _ ↦
            if is_status_reason L tr.conditions status_environment reason_failed
            then clean_up_environment publisher tr
            else (ask (api.list_requests tr.metadata.namespace tr.metadata.name) >>= λ r.
                follow_requests cluster tr (listed L r))
      ]

  -- What is done with the listed environments.
  unfoldable pub follow_environments :
      TestRun Time Span
      → Result E (List (ObjectMeta Time))
      → M W (Call Time Span) (Step E Time Span)
  unfolding finish_if
  follow_environments tr (err e) = pure (tr, false, some e)
  follow_environments tr (ok []) = pure (tr, false, none)
  follow_environments tr (ok (_ ∷ _)) =
      set_on L api tr (environment "True" reason_completed "Environment ready") >>= λ set.
      finish_if api set.1 set.0

  unfoldable pub check_environment : TestRun Time Span → M W (Call Time Span) (Step E Time Span)
  unfolding follow_environments
  check_environment tr =
      ask (api.list_environments tr.metadata.namespace tr.spec.id) >>= λ r. follow_environments tr r
