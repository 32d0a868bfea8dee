-- ===== src/TestRun/Requests.antt =====
-- internal/controller/testrun_controller.go: the environment requests of a test run
-- (createEnvironmentRequests, deleteEnvironmentRequests).
use etos.Prelude.{
  ℕ, ltb, Bool, true, false, ◌&&◌, Option, none, some, String, ◌<>◌, List, [], ◌∷◌, length,
  if◌then◌else◌, ◌~◌,
}
use etos.Prelude.Int.{pos}
use etos.Kube.{Library, is_zero}
use etos.Kube.Monad.{Result, ok, err, M, ◌>>=◌, pure, ask, tell}
use etos.Api.{Test, EnvironmentRequest}
use etos.TestRun.Types.{
  TestRun, TestRunApi, Suite, Cluster, NewRequest, Call, created_request, deleted_request,
}
use etos.TestRun.Groups.{group_tests, index_of}
use etos.TestRun.NewRequest.{environment_request}

-- TestRunOwnerKey.
abbrev pub owner_key : String
owner_key = ".metadata.controller.suiterunner"

module _ {E Time : Type 0} (L : Library E Time) where
  -- The requests that were listed; that there are none may be an error.
  unfoldable pub listed :
      Result E (List (EnvironmentRequest Time)) → Result E (List (EnvironmentRequest Time))
  listed (ok requests) = ok requests
  listed (err e) = if L.is_not_found e then ok [] else err e

module _ {W E Time Span : Type 0} (L : Library E Time) (api : TestRunApi W E Time Span) where
  -- What follows one deletion: only an error other than that the request is gone ends the loop.
  unfoldable pub unless_failed :
      Option E → M W (Call Time Span) (Option E) → M W (Call Time Span) (Option E)
  unless_failed none rest = rest
  unless_failed (some e) rest = if L.is_not_found e then rest else pure (some e)

  -- The loop of deleteEnvironmentRequests.
  unfoldable pub delete_requests : List (EnvironmentRequest Time) → M W (Call Time Span) (Option E)
  unfolding unless_failed
  delete_requests [] = pure none
  delete_requests (request ∷ requests) = elim (is_zero request.metadata.deletion_timestamp) [
    | false ↦ delete_requests requests
    | true ↦ tell (deleted_request request.metadata.name) (api.delete_request request) >>= λ e.
        unless_failed e (delete_requests requests)
  ]

  -- What is done with the listed requests, or with the error of listing them.
  unfoldable pub delete_listed :
      Result E (List (EnvironmentRequest Time)) → M W (Call Time Span) (Option E)
  unfolding delete_requests
  delete_listed (ok requests) = delete_requests requests
  delete_listed (err e) = pure (some e)

  unfoldable pub delete_environment_requests : TestRun Time Span → M W (Call Time Span) (Option E)
  unfolding listed delete_listed
  delete_environment_requests tr =
      ask (api.list_requests tr.metadata.namespace tr.metadata.name) >>= λ r.
      delete_listed (listed L r)

-- A request for that suite and test runner is there already.
module _ {W E Time Span : Type 0} (api : TestRunApi W E Time Span) where
  unfoldable pub is_requested : List (EnvironmentRequest Time) → String → String → Bool
  is_requested [] suite testrunner = false
  is_requested (request ∷ requests) suite testrunner =
      let rest = is_requested requests suite testrunner in
      if api.has_prefix request.spec.name suite
        && (request.spec.providers.test_runner_image ~ testrunner)
      then true
      else rest

  -- The name of the request of a test runner; the index of one that is not there is 0.
  unfoldable pub request_name : Suite → List (String × ℕ) → ℕ → String → String
  unfolding index_of
  request_name suite indices amount testrunner =
      if ltb 1 amount
      then suite.name
        <> ("-" <> api.itoa (pos (elim (index_of testrunner indices) [ none ↦ 0 | some i ↦ i ])))
      else suite.name

  -- Creating a request, of which the test run is made the controller.
  unfoldable pub create_controlled :
      TestRun Time Span → NewRequest → M W (Call Time Span) (Option E)
  create_controlled tr request = elim (api.control_request tr request) [
    | some e ↦ pure (some e)
    | none ↦ tell (created_request request) (api.create_request request)
  ]

  unfoldable pub unless_error :
      Option E → M W (Call Time Span) (Option E) → M W (Call Time Span) (Option E)
  unless_error none rest = rest
  unless_error (some e) rest = pure (some e)

  -- The loop over the map `testrunners`: the groups in the order in which they are met, the indices,
  -- and the number of groups.
  unfoldable pub create_groups :
      Suite
      → List (EnvironmentRequest Time)
      → TestRun Time Span
      → Cluster
      → List (String × ℕ)
      → ℕ
      → List (String × List Test)
      → M W (Call Time Span) (Option E)
  unfolding is_requested request_name create_controlled unless_error
  create_groups suite requests tr cluster indices amount [] = pure none
  create_groups suite requests tr cluster indices amount ((testrunner, tests) ∷ groups) =
      elim (is_requested requests suite.name testrunner) [
        | true ↦ create_groups suite requests tr cluster indices amount groups
        | false ↦
            environment_request api (request_name suite indices amount testrunner) testrunner
              cluster tr tests suite.dataset
            >>= λ request. create_controlled tr request >>= λ e.
                unless_error e (create_groups suite requests tr cluster indices amount groups)
      ]

  unfoldable pub create_environment_requests :
      Suite
      → List (EnvironmentRequest Time)
      → TestRun Time Span
      → Cluster
      → M W (Call Time Span) (Option E)
  unfolding create_groups group_tests
  create_environment_requests suite requests tr cluster =
      let grouped = group_tests suite.tests [] [] 0 in
      ask (api.range grouped.0) >>= λ groups.
      create_groups suite requests tr cluster grouped.1 (length grouped.0) groups

  -- The loop over the suites.
  unfoldable pub create_for_suites :
      List Suite
      → List (EnvironmentRequest Time)
      → TestRun Time Span
      → Cluster
      → M W (Call Time Span) (Option E)
  unfolding create_environment_requests
  create_for_suites [] requests tr cluster = pure none
  create_for_suites (suite ∷ suites) requests tr cluster =
      create_environment_requests suite requests tr cluster >>= λ e.
      unless_error e (create_for_suites suites requests tr cluster)
