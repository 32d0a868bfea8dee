-- ===== src/TestRun/NewRequest.antt =====
-- internal/controller/testrun_controller.go: environmentRequest, the request for the environments of
-- the tests that one test runner of a suite runs.
use etos.Prelude.{Option, none, some, String, ◌<>◌, List, [], ◌∷◌, ◌++◌, length, if◌then◌else◌, ◌~◌}
use etos.Prelude.Int.{ℤ, pos, add_int64}
use etos.Kube.Monad.{M, ◌>>=◌, pure, ask}
use etos.Api.{Test, EnvironmentRequestSpec}
use etos.TestRun.Types.{TestRun, Cluster, NewRequest, TestRunApi, Call}

-- A key of a map, and whether it is there.
unfoldable pub value_of : List (String × String) → String → Option String
value_of [] key = none
value_of ((k, v) ∷ m) key = if k ~ key then some v else value_of m key

-- The annotation of that key, if the test run has it.
unfoldable pub copied : List (String × String) → String → List (String × String)
unfolding value_of
copied annotations key = elim (value_of annotations key) [ none ↦ [] | some v ↦ (key, v) ∷ [] ]

module _ {Time Span : Type 0} where
  -- The specification, from the fresh id and the deadline.
  unfoldable pub request_spec :
      String
      → ℤ
      → String
      → String
      → Cluster
      → TestRun Time Span
      → List Test
      → Option String
      → EnvironmentRequestSpec
  request_spec id deadline name testrunner cluster testrun tests dataset = record {
    id = id;
    name = name;
    schema_version = testrun.spec.schema_version;
    image = testrun.spec.environment_provider;
    identifier = testrun.spec.id;
    artifact = testrun.spec.artifact;
    identity = testrun.spec.identity;
    minimum_amount = pos 1;
    maximum_amount = pos (length tests);
    deadline = deadline;
    dataset = dataset;
    providers = record {
      iut = testrun.spec.providers.iut;
      log_area = testrun.spec.providers.log_area;
      execution_space = testrun.spec.providers.execution_space;
      test_runner = testrun.spec.test_runner_version;
      test_runner_image = testrunner;
    };
    tests = tests;
    service_account_name = testrun.spec.cluster <> "-provider";
    config = record {
      eiffel_message_bus = cluster.eiffel_message_bus;
      etos_message_bus = cluster.etos_message_bus;
      etos_api = cluster.config.etos_api_url;
      etos_sse = cluster.config.etos_sse_url;
      encryption_key = cluster.config.encryption_key;
      etcd_host = cluster.etcd_host;
      etcd_port = cluster.etcd_port;
      graph_ql_server = cluster.event_repository_host;
      routing_key_tag = cluster.config.routing_key_tag;
      wait_for_timeout = cluster.config.environment_timeout;
      test_runner_version = testrun.spec.test_runner_version;
      environment_provider_event_data_timeout = cluster.config.event_data_timeout;
      environment_provider_service_account = cluster.name <> "-provider";
      environment_provider_test_suite_timeout = cluster.config.test_suite_timeout;
    };
  }

module _ {W E Time Span : Type 0} (api : TestRunApi W E Time Span) where
  -- A timeout that is no number is 60 seconds.
  unfoldable pub timeout_of : Cluster → ℤ
  timeout_of cluster = elim (api.parse_int cluster.config.environment_timeout) [
    | none ↦ pos 60
    | some t ↦ t
  ]

  unfoldable pub environment_request :
      String
      → String
      → Cluster
      → TestRun Time Span
      → List Test
      → Option String
      → M W (Call Time Span) NewRequest
  unfolding request_spec copied timeout_of
  environment_request name testrunner cluster testrun tests dataset = do
    seconds ← ask api.unix_now
    id ← ask api.new_uuid
    pure (record {
      generate_name = testrun.metadata.name <> "-";
      namespace = testrun.metadata.namespace;
      labels =
          ("etos.eiffel-community.github.io/id", testrun.spec.id)
          ∷ ("etos.eiffel-community.github.io/cluster", testrun.spec.cluster)
          ∷ ("app.kubernetes.io/name", "suite-runner")
          ∷ ("app.kubernetes.io/part-of", "etos")
          ∷ [];
      annotations =
          copied testrun.metadata.annotations "etos.eiffel-community.github.io/traceparent"
          ++ (copied testrun.metadata.annotations "etos.eiffel-community.github.io/tracestate"
              ++ copied testrun.metadata.annotations "etos.eiffel-community.github.io/baggage");
      spec =
          request_spec id (add_int64 seconds (timeout_of cluster)) name testrunner cluster testrun
            tests dataset;
    })
