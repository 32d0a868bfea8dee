-- ===== src/Conversion/TestRun.antt =====
-- api/v1beta1/testrun_conversion.go: a test run of v1beta1 (spoke) from and to v1alpha1 (hub).
--
-- The struct that is filled is an empty one, and no conversion fails: each returns nil. `decimal` is
-- the %d of fmt.Sprintf. A TestRunner is its version.
use etos.Prelude.{ℕ, suc, Option, none, some, String, ◌<>◌, List, [], ◌∷◌, map, if◌then◌else◌, ◌~◌}
use etos.Conversion.{suite_from, suite_to}
use etos.Conversion.Types.{HubSuite, SpokeSuite, Image, Machinery, HubTestRun, SpokeTestRun}

-- Image{}.
abbrev pub empty_image : Image
empty_image = record { image = ""; image_pull_policy = "" }

-- Image.convertFrom, on an empty Image.
unfoldable pub image_from : Option Image → Image
image_from none = empty_image
image_from (some src) = record { image = src.image; image_pull_policy = src.image_pull_policy }

-- Image.convertTo, on an empty Image and a receiver that is not nil.
unfoldable pub image_to : Image → Image
image_to src = record { image = src.image; image_pull_policy = src.image_pull_policy }

-- An optional runner or provider of ConvertTo.
unfoldable pub runner_to : Option Image → Option (Option Image)
unfolding image_to
runner_to none = none
runner_to (some src) = some (some (image_to src))

-- A runner or provider of ConvertFrom, which is there in any case.
unfoldable pub runner_from : Option (Option Image) → Option Image
unfolding image_from
runner_from none = some empty_image
runner_from (some src) = some (image_from src)

-- The TestRunner of ConvertFrom: TestRunner.convertFrom, on an empty TestRunner.
unfoldable pub test_runner_from : Option String → Option String
test_runner_from none = some ""
test_runner_from (some version) = some version

-- The TestRunner of ConvertTo: TestRunner.convertTo, on an empty TestRunner.
unfoldable pub test_runner_to : Option String → Option String
test_runner_to none = none
test_runner_to (some version) = some version

module _ (K : Machinery) where
  -- The name, or the generated name's prefix if there is none.
  unfoldable pub name_of : K.Meta → String
  name_of metadata = if K.name metadata ~ "" then K.generate_name metadata else K.name metadata

module _ (K : Machinery) (decimal : ℕ → String) where
  -- The loop of TestRun.ConvertTo over the suites, from an index on.
  unfoldable pub suites_to : String → ℕ → List SpokeSuite → List HubSuite
  unfolding suite_to
  suites_to name i [] = []
  suites_to name i (suite ∷ suites) =
      record (suite_to suite) { name = name <> ("-suite-" <> decimal i) }
      ∷ suites_to name (suc i) suites

  -- TestRun.ConvertTo.
  unfoldable pub test_run_to : SpokeTestRun K → HubTestRun K
  unfolding suites_to name_of runner_to test_runner_to
  test_run_to src = record {
    metadata = src.metadata;
    cluster = src.cluster;
    schema_version = src.schema_version;
    id = src.id;
    artifact = src.artifact;
    retention = record { failure = src.retention.failure; success = src.retention.success };
    suite_runner = runner_to src.suite_runner;
    test_runner = test_runner_to src.test_runner;
    log_listener = none;
    environment_provider = runner_to src.environment_provider;
    identity = src.identity;
    providers = record {
      iut = src.providers.iut;
      log_area = src.providers.log_area;
      execution_space = src.providers.execution_space;
    };
    suites = suites_to (name_of K src.metadata) 0 src.suites;
    suite_source = src.suite_source;
    timeout = src.timeout;
    deadline = src.deadline;
    conditions = src.conditions;
    suite_runners = [];
    environment_requests = src.environment_requests;
    start_time = none;
    completion_time = src.completion_time;
    verdict = src.verdict;
  }

module _ (K : Machinery) (sorted : List String → List String) where
  -- TestRun.ConvertFrom.
  unfoldable pub test_run_from : HubTestRun K → SpokeTestRun K
  unfolding suite_from name_of runner_from test_runner_from
  test_run_from src = record {
    metadata = src.metadata;
    spec_name = name_of K src.metadata;
    schema_version = src.schema_version;
    suites = map (suite_from sorted) src.suites;
    id = src.id;
    artifact = src.artifact;
    identity = src.identity;
    cluster = src.cluster;
    providers = record {
      iut = src.providers.iut;
      log_area = src.providers.log_area;
      execution_space = src.providers.execution_space;
    };
    suite_runner = runner_from src.suite_runner;
    environment_provider = runner_from src.environment_provider;
    test_runner = test_runner_from src.test_runner;
    suite_source = src.suite_source;
    timeout = src.timeout;
    deadline = src.deadline;
    retention = record { failure = src.retention.failure; success = src.retention.success };
    conditions = src.conditions;
    environment_requests = src.environment_requests;
    completion_time = src.completion_time;
    verdict = src.verdict;
  }
