-- ===== src/Conversion/Environment.antt =====
-- api/v1beta1/environment_conversion.go: an environment of v1beta1 (spoke) from and to v1alpha1 (hub),
-- on an empty destination. No conversion fails: each returns nil.
use etos.Prelude.{Option, none, some, String, List, [], map, ◌≡◌, refl}
use etos.Conversion.{test_execution_from, test_execution_to}
use etos.Conversion.RoundTrip.{trimmed, HaveKeysOnce, tests_from-to}
use etos.Conversion.Types.{Machinery, HubEnvironment, SpokeEnvironment, ProviderNames}

-- The providers of Environment.ConvertFrom.
unfoldable pub providers_from : Option ProviderNames → ProviderNames
providers_from none = record { iut = ""; log_area = ""; execution_space = "" }
providers_from (some src) = record {
  iut = src.iut;
  log_area = src.log_area;
  execution_space = src.execution_space;
}

module _ (K : Machinery) where
  -- Environment.ConvertTo.
  unfoldable pub environment_to : SpokeEnvironment K → HubEnvironment K
  environment_to src = record {
    metadata = src.metadata;
    name = src.name;
    suite_id = src.testrun_id;
    sub_suite_id = src.id;
    main_suite_id = src.main_suite_id;
    artifact = src.artifact;
    context = src.context;
    providers = some (record {
      iut = src.providers.iut;
      log_area = src.providers.log_area;
      execution_space = src.providers.execution_space;
    });
    deadline = src.deadline;
    priority = src.suite.priority;
    tests = map test_execution_to src.suite.test_executions;
    test_runner = src.test_runner;
    iut = src.iut;
    executor = src.executor;
    log_area = src.log_area;
    conditions = src.conditions;
    environment_releasers = [];
    completion_time = src.completion_time;
  }

  -- Environment.ConvertFrom.
  unfoldable pub environment_from :
      (List String → List String) → HubEnvironment K → SpokeEnvironment K
  unfolding providers_from
  environment_from sorted src = record {
    metadata = src.metadata;
    name = src.name;
    id = src.sub_suite_id;
    testrun_id = src.suite_id;
    main_suite_id = src.main_suite_id;
    artifact = src.artifact;
    context = src.context;
    test_runner = src.test_runner;
    providers = providers_from src.providers;
    iut = src.iut;
    executor = src.executor;
    log_area = src.log_area;
    deadline = src.deadline;
    suite = record {
      priority = src.priority;
      test_executions = map (test_execution_from sorted) src.tests;
      dataset = none;
    };
    conditions = src.conditions;
    completion_time = src.completion_time;
  }

  -- An environment with trimmed test executions and no dataset.
  unfoldable pub trimmed_environment : SpokeEnvironment K → SpokeEnvironment K
  unfolding trimmed
  trimmed_environment e = record e {
    suite = record {
      priority = e.suite.priority;
      test_executions = map trimmed e.suite.test_executions;
      dataset = none;
    };
  }

  -- An environment of v1beta1 that is stored as v1alpha1 and read again is the environment itself,
  -- except that the dataset of its suite is gone, and that its test executions have lost dependencies
  -- and additional resources and have no checkout or environment variables that are nil. The keys of
  -- each map are distinct, and sorting no keys gives none.
  pub environment_from-to :
      (sorted : List String → List String) (sorted_nil : sorted [] ≡ []) (e : SpokeEnvironment K)
      → HaveKeysOnce e.suite.test_executions
      → environment_from sorted (environment_to e) ≡ trimmed_environment e
  unfolding environment_from environment_to trimmed_environment providers_from
  environment_from-to sorted sorted_nil e once =
      rw (tests_from-to sorted sorted_nil e.suite.test_executions once) refl
