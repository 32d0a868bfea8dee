-- ===== src/TestRun/SuiteRunnerJob.antt =====
-- internal/controller/testrun_controller.go: suiteRunnerJob, the job of the suite runner of a test run.
--
-- The check that the job's owner is a test run is its type here. What the container requests of memory
-- and processor, and the annotations of the job, which are empty, are left out.
use etos.Prelude.{none, some, String, ◌<>◌, List, [], ◌∷◌, ◌++◌, if◌then◌else◌}
use etos.Kube.{at_key}
use etos.Kube.Monad.{Result, ok, err, M, ◌>>?◌, pure, ask}
use etos.Kube.Pod.{JobSpec}
use etos.Api.{OpenTelemetry}
use etos.TestRun.Types.{TestRun, TestRunApi, Call}

-- The two variables of OpenTelemetry, if the cluster uses it.
unfoldable pub telemetry_env : OpenTelemetry → List (String × String)
telemetry_env t =
    if t.enabled
    then ("OTEL_EXPORTER_OTLP_ENDPOINT", t.endpoint)
      ∷ ("OTEL_EXPORTER_OTLP_INSECURE", t.insecure)
      ∷ []
    else []

module _ {Time Span : Type 0} where
  unfoldable pub suite_runner_env : TestRun Time Span → OpenTelemetry → List (String × String)
  unfolding telemetry_env
  suite_runner_env testrun telemetry =
      let annotation = at_key testrun.metadata.annotations in
      (("ARTIFACT", testrun.spec.artifact)
        ∷ ("IDENTITY", testrun.spec.identity)
        ∷ ("ETOS_ROUTING_KEY_TAG", testrun.metadata.namespace <> ("-" <> testrun.spec.cluster))
        ∷ ("TESTRUN", testrun.metadata.name)
        ∷ ("IDENTIFIER", testrun.spec.id)
        ∷ ("TRACEPARENT", annotation "etos.eiffel-community.github.io/traceparent")
        ∷ ("BAGGAGE", annotation "etos.eiffel-community.github.io/baggage")
        ∷ ("TRACESTATE", annotation "etos.eiffel-community.github.io/tracestate")
        ∷ ("SUITE_SOURCE", testrun.spec.suite_source)
        ∷ [])
      ++ telemetry_env telemetry

  unfoldable pub suite_runner_spec : TestRun Time Span → List (String × String) → JobSpec
  suite_runner_spec testrun env = record {
    name = testrun.metadata.name;
    generate_name = "";
    namespace = testrun.metadata.namespace;
    labels =
        ("etos.eiffel-community.github.io/id", testrun.spec.id)
        ∷ ("etos.eiffel-community.github.io/cluster", testrun.spec.cluster)
        ∷ ("app.kubernetes.io/name", "suite-runner")
        ∷ ("app.kubernetes.io/part-of", "etos")
        ∷ [];
    ttl_seconds_after_finished = none;
    backoff_limit = 0;
    template_name = testrun.metadata.name;
    grace_period = 30;
    service_account_name = testrun.spec.cluster <> "-provider";
    restart_policy = "Never";
    init_containers = [];
    containers =
        record {
          name = testrun.metadata.name;
          image = testrun.spec.suite_runner;
          env = env;
          env_from = (testrun.spec.cluster <> "-etos-suite-runner-cfg") ∷ [];
          command = "python" ∷ "-u" ∷ "-m" ∷ "etos_suite_runner" ∷ [];
          args = [];
        }
        ∷ [];
  }

module _ {W E Time Span : Type 0} (api : TestRunApi W E Time Span) where
  -- The last step makes the test run the controller of its job.
  unfoldable pub suite_runner_job : TestRun Time Span → M W (Call Time Span) (Result E JobSpec)
  unfolding suite_runner_env suite_runner_spec
  suite_runner_job testrun =
      ask (api.get_cluster testrun.metadata.namespace testrun.spec.cluster) >>? λ cluster.
      (let spec = suite_runner_spec testrun (suite_runner_env testrun cluster.open_telemetry) in
        pure (elim (api.control_job testrun spec) [ none ↦ ok spec | some e ↦ err e ]))
