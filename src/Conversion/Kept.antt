-- ===== src/Conversion/Kept.antt =====
-- What the two conversions keep of a test run, and of a suite that is converted again.
use etos.Prelude.{ℕ, suc, ◌≡◌, refl, ap, ◌∙◌, Option, none, some, String, List, [], ◌∷◌, map}
use etos.Conversion.{suite_from, suite_to, test_execution_to}
use etos.Conversion.RoundTrip.{trimmed, trimmed_suite, HaveKeysOnce, suite_from-to}
use etos.Conversion.TestRun.{
  empty_image, image_from, image_to, runner_from, runner_to, test_runner_from, test_runner_to,
  suites_to, name_of, test_run_from, test_run_to,
}
use etos.Conversion.Types.{Image, Machinery, HubSuite, SpokeSuite, SpokeTestRun, TestExecution}

-- Each suite's test executions have each key of their environment variables once.
unfoldable pub SuitesHaveKeysOnce : List SpokeSuite → Type 0
unfolding HaveKeysOnce
SuitesHaveKeysOnce [] = Unit
SuitesHaveKeysOnce (s ∷ suites) = HaveKeysOnce s.test_executions × SuitesHaveKeysOnce suites

-- A runner that is there; a missing one is empty.
unfoldable pub or_else : {A : Type 0} → A → Option A → Option A
or_else zero_value none = some zero_value
or_else zero_value (some a) = some a

-- A test run with trimmed suites, the name of its metadata, and empty runners for missing ones.
unfoldable pub settled : (K : Machinery) → SpokeTestRun K → SpokeTestRun K
unfolding name_of trimmed_suite or_else
settled K t = record t {
  spec_name = name_of K t.metadata;
  suites = map trimmed_suite t.suites;
  suite_runner = or_else empty_image t.suite_runner;
  environment_provider = or_else empty_image t.environment_provider;
  test_runner = or_else "" t.test_runner;
}

runner_from-to : (image : Option Image) → runner_from (runner_to image) ≡ or_else empty_image image
unfolding runner_from runner_to image_from image_to or_else
runner_from-to none = refl
runner_from-to (some image) = refl

test_runner_from-to :
    (version : Option String) → test_runner_from (test_runner_to version) ≡ or_else "" version
unfolding test_runner_from test_runner_to or_else
test_runner_from-to none = refl
test_runner_from-to (some version) = refl

test_execution_to-trimmed :
    (src : TestExecution) → test_execution_to (trimmed src) ≡ test_execution_to src
unfolding test_execution_to trimmed etos.Conversion.test_environment_to etos.Conversion.execution_to
    etos.Conversion.content etos.Conversion.test_case_to
test_execution_to-trimmed src = refl

tests_to-trimmed :
    (srcs : List TestExecution)
    → map test_execution_to (map trimmed srcs) ≡ map test_execution_to srcs
tests_to-trimmed [] = refl
tests_to-trimmed (src ∷ srcs) = rw (test_execution_to-trimmed src, tests_to-trimmed srcs) refl

suite_to-trimmed : (s : SpokeSuite) → suite_to (trimmed_suite s) ≡ suite_to s
unfolding suite_to trimmed_suite
suite_to-trimmed s =
    ap (λ (tests : List etos.Conversion.Types.HubTest). record (suite_to s) { tests = tests })
      (tests_to-trimmed s.test_executions)

module _ (sorted : List String → List String) (sorted_nil : sorted [] ≡ []) where
  -- The parameters of a stored suite are merged into its commands once: the suite that v1beta1 reads
  -- from it and stores is itself read and stored unchanged. The keys of each map of environment
  -- variables are distinct, and sorting no keys gives none.
  pub suite_to-settles :
      (h : HubSuite)
      → HaveKeysOnce (suite_from sorted h).test_executions
      → suite_to (suite_from sorted (suite_to (suite_from sorted h)))
        ≡ suite_to (suite_from sorted h)
  suite_to-settles h once =
      ap suite_to (suite_from-to sorted sorted_nil (suite_from sorted h) once)
      ∙ suite_to-trimmed (suite_from sorted h)

  suites_from-to :
      (decimal : ℕ → String) (K : Machinery) (name : String) (i : ℕ) (suites : List SpokeSuite)
      → SuitesHaveKeysOnce suites
      → map (suite_from sorted) (suites_to K decimal name i suites) ≡ map trimmed_suite suites
  unfolding suites_to SuitesHaveKeysOnce suite_from
  suites_from-to decimal K name i [] once = refl
  suites_from-to decimal K name i (s ∷ suites) (once, others) =
      rw
        (
          suite_from-to sorted sorted_nil s once,
          suites_from-to decimal K name (suc i) suites others,
        )
        refl

  -- A test run of v1beta1 that is stored as v1alpha1 and read again is the test run itself, except that
  -- the name in its spec is the name of its metadata (or the prefix of its generated name), a missing
  -- suite runner, environment provider or test runner is an empty one, and its suites have lost
  -- dependencies and additional resources and have no checkout or environment variables that are nil.
  -- The keys of each map are distinct, and sorting no keys gives none.
  pub test_run_from-to :
      (decimal : ℕ → String) (K : Machinery) (t : SpokeTestRun K)
      → SuitesHaveKeysOnce t.suites
      → test_run_from K sorted (test_run_to K decimal t) ≡ settled K t
  unfolding test_run_from test_run_to settled
  test_run_from-to decimal K t once =
      rw
        (
          runner_from-to t.suite_runner,
          runner_from-to t.environment_provider,
          test_runner_from-to t.test_runner,
          suites_from-to decimal K (name_of K t.metadata) 0 t.suites once,
        )
        refl
