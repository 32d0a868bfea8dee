-- ===== src/Conversion.antt =====
-- api/v1beta1/common_conversion.go: a test suite of v1beta1 (spoke) from and to v1alpha1 (hub).
--
-- A conversion that fills a struct in place takes the struct and returns it. `slices.Sorted` of the
-- keys of a map is the argument `sorted`.
pub mod Types
pub mod TestRun
pub mod Environment
pub mod RoundTrip
pub mod Kept
mod Tests
use etos.Prelude.{Option, none, some, String, ◌<>◌, List, [], ◌∷◌, map, if◌then◌else◌, ◌~◌}
use etos.Kube.{at_key, set_key}
use Types.{
  HubTestCase, HubExecution, HubTest, HubSuite, SpokeTestCase, SpokeExecution, TestEnvironment,
  TestExecution, SpokeSuite,
}

-- maps.Copy.
unfoldable pub copy : List (String × String) → List (String × String) → List (String × String)
unfolding set_key
copy dst [] = dst
copy dst ((key, value) ∷ src) = copy (set_key dst key value) src

-- The content of a map, which is empty if the map is nil.
unfoldable pub content : {A : Type 0} → Option (List A) → List A
content none = []
content (some xs) = xs

-- What the loop of Execution.convertFrom writes for a parameter.
unfoldable pub parameter : String → String → String
parameter key param = if param ~ "" then key else key <> "=" <> param

-- The loop of Execution.convertFrom over the sorted keys.
unfoldable pub with_parameters : List (String × String) → List String → String → String
unfolding parameter
with_parameters parameters [] command = command
with_parameters parameters (key ∷ keys) command =
    with_parameters parameters keys (command <> " " <> parameter key (at_key parameters key))

-- TestCase.convertFrom.
unfoldable pub test_case_from : HubTestCase → SpokeTestCase
test_case_from src = record {
  id = src.id;
  version = src.version;
  repository = src.tracker;
  uri = src.uri;
}

-- TestCase.convertTo.
unfoldable pub test_case_to : SpokeTestCase → HubTestCase
test_case_to src = record {
  id = src.id;
  version = src.version;
  tracker = src.repository;
  uri = src.uri;
}

-- TestEnvironment.convertFrom, on an empty TestEnvironment.
unfoldable pub test_environment_from : HubExecution → TestEnvironment
test_environment_from src = record {
  test_runner = src.test_runner;
  environment_variables = src.environment;
  additional_resources = [];
}

-- TestEnvironment.convertTo.
unfoldable pub test_environment_to : TestEnvironment → HubExecution → HubExecution
unfolding copy content
test_environment_to src dst = record {
  checkout = dst.checkout;
  parameters = dst.parameters;
  environment = some (copy (content dst.environment) (content src.environment_variables));
  command = dst.command;
  execute = dst.execute;
  test_runner = src.test_runner;
}

-- Execution.convertTo.
unfoldable pub execution_to : SpokeExecution → HubExecution → HubExecution
unfolding content
execution_to src dst = record {
  checkout = some (content src.checkout);
  parameters = some [];
  environment = dst.environment;
  command = src.command;
  execute = src.pre_execution;
  test_runner = dst.test_runner;
}

-- v1alpha1.Execution{}.
abbrev pub empty_execution : HubExecution
empty_execution = record {
  checkout = none;
  parameters = none;
  environment = none;
  command = "";
  execute = none;
  test_runner = "";
}

-- TestExecution.convertTo.
unfoldable pub test_execution_to : TestExecution → HubTest
unfolding test_case_to execution_to test_environment_to
test_execution_to src = record {
  id = src.id;
  test_case = test_case_to src.test_case;
  execution = test_environment_to src.environment (execution_to src.execution empty_execution);
}

-- Suite.convertTo, on an empty Suite.
unfoldable pub suite_to : SpokeSuite → HubSuite
unfolding test_execution_to
suite_to src = record {
  name = "";
  priority = src.priority;
  tests = map test_execution_to src.test_executions;
  dataset = src.dataset;
}

module _ (sorted : List String → List String) where
  -- Execution.convertFrom.
  unfoldable pub execution_from : HubExecution → SpokeExecution
  unfolding with_parameters content
  execution_from src = record {
    command =
        with_parameters (content src.parameters)
          (sorted (map (λ (p : String × String). p.0) (content src.parameters))) src.command;
    checkout = src.checkout;
    pre_execution = src.execute;
  }

  -- TestExecution.convertFrom, on an empty TestExecution.
  unfoldable pub test_execution_from : HubTest → TestExecution
  unfolding test_case_from execution_from test_environment_from
  test_execution_from src = record {
    id = src.id;
    dependencies = [];
    test_case = test_case_from src.test_case;
    execution = execution_from src.execution;
    environment = test_environment_from src.execution;
  }

  -- Suite.convertFrom.
  unfoldable pub suite_from : HubSuite → SpokeSuite
  unfolding test_execution_from
  suite_from src = record {
    priority = src.priority;
    test_executions = map test_execution_from src.tests;
    dataset = src.dataset;
  }
