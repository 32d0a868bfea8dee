-- ===== src/Conversion/Tests.antt =====
-- The conversions on a suite with one test.
use etos.Prelude.{ℕ, ◌≡◌, refl, none, some, String, List, [], ◌∷◌}
use etos.Prelude.Int.{pos}
use etos.Conversion.{
  suite_from, suite_to, execution_from, test_execution_from, test_environment_from, content,
  with_parameters, parameter,
}
use etos.Conversion.RoundTrip.{AreNew, HasKeysOnce, HaveKeysOnce, has_key}
use etos.Conversion.Kept.{SuitesHaveKeysOnce, settled, suite_to-settles, test_run_from-to}
use etos.Conversion.Environment.{
  environment_from, environment_to, trimmed_environment, environment_from-to,
}
use etos.Conversion.TestRun.{test_run_from, test_run_to}
use etos.Conversion.Types.{
  HubExecution, HubSuite, SpokeSuite, Machinery, SpokeTestRun, SpokeEnvironment,
}

-- Sorting, which leaves at most one key as it is.
abbrev sorted : List String → List String
sorted keys = keys

abbrev stored_execution : HubExecution
stored_execution = record {
  checkout = none;
  parameters = some (("--level", "3") ∷ ("-v", "") ∷ []);
  environment = some (("MODE", "fast") ∷ ("LOG", "on") ∷ []);
  command = "run";
  execute = some ("make" ∷ []);
  test_runner = "runner";
}

abbrev stored_suite : HubSuite
stored_suite = record {
  name = "suite";
  priority = pos 1;
  dataset = none;
  tests =
      record {
        id = "t";
        execution = stored_execution;
        test_case = record { id = "c"; version = "1"; tracker = "git"; uri = "u" };
      }
      ∷ [];
}

merged : (execution_from sorted stored_execution).command ≡ "run --level=3 -v"
unfolding execution_from with_parameters parameter content
merged = refl

stored-once : HaveKeysOnce (suite_from sorted stored_suite).test_executions
unfolding HaveKeysOnce HasKeysOnce AreNew has_key suite_from test_execution_from
    test_environment_from content
stored-once = ((refl, (refl, tt)), tt)

suite_to-settles_example :
    suite_to (suite_from sorted (suite_to (suite_from sorted stored_suite)))
    ≡ suite_to (suite_from sorted stored_suite)
suite_to-settles_example = suite_to-settles sorted refl stored_suite stored-once

abbrev texts : Machinery
texts = record {
  Meta = String;
  name = λ m. m;
  generate_name = λ m. m;
  Condition = String;
  Reference = String;
  Time = ℕ;
  Span = ℕ;
}

abbrev spoke_suite : SpokeSuite
spoke_suite = record {
  priority = pos 1;
  dataset = some "{}";
  test_executions =
      record {
        id = "t";
        dependencies = "other" ∷ [];
        test_case = record { id = "c"; version = "1"; repository = "git"; uri = "u" };
        execution = record { command = "run"; checkout = none; pre_execution = none };
        environment = record {
          test_runner = "runner";
          environment_variables = some (("MODE", "fast") ∷ ("LOG", "on") ∷ []);
          additional_resources = [];
        };
      }
      ∷ [];
}

abbrev spoke_test_run : SpokeTestRun texts
spoke_test_run = record {
  metadata = "run";
  spec_name = "other";
  schema_version = "v1beta1";
  suites = spoke_suite ∷ [];
  id = "1";
  artifact = "a";
  identity = "pkg";
  cluster = "c";
  providers = record { iut = "i"; log_area = "l"; execution_space = "e" };
  suite_runner = none;
  environment_provider = some (record { image = "x"; image_pull_policy = "Always" });
  test_runner = none;
  suite_source = "";
  timeout = pos 10;
  deadline = pos 20;
  retention = record { failure = none; success = some 5 };
  conditions = [];
  environment_requests = [];
  completion_time = none;
  verdict = "";
}

spoke-once : SuitesHaveKeysOnce spoke_test_run.suites
unfolding SuitesHaveKeysOnce HaveKeysOnce HasKeysOnce AreNew has_key content
spoke-once = (((refl, (refl, tt)), tt), tt)

test_run_from-to_example :
    test_run_from texts sorted (test_run_to texts (λ _. "0") spoke_test_run)
    ≡ settled texts spoke_test_run
test_run_from-to_example = test_run_from-to sorted refl (λ _. "0") texts spoke_test_run spoke-once

abbrev spoke_environment : SpokeEnvironment texts
spoke_environment = record {
  metadata = "env";
  suite = spoke_suite;
  name = "env";
  id = "2";
  testrun_id = "1";
  main_suite_id = "3";
  artifact = "a";
  context = "x";
  test_runner = "runner";
  providers = record { iut = "i"; log_area = "l"; execution_space = "e" };
  iut = some "{}";
  executor = none;
  log_area = none;
  deadline = pos 20;
  conditions = "Active" ∷ [];
  completion_time = some 7;
}

environment_from-to_example :
    environment_from texts sorted (environment_to texts spoke_environment)
    ≡ trimmed_environment texts spoke_environment
unfolding SuitesHaveKeysOnce
environment_from-to_example = environment_from-to texts sorted refl spoke_environment spoke-once.0
