-- ===== src/Conversion/RoundTrip.antt =====
-- What the two conversions keep of a test suite.
use mathlib.Core.List.{append-nil, append_assoc}
use etos.Prelude.{
  ◌≡◌, refl, sym, ap, ◌∙◌, Bool, true, false, Bool-cases, inl, inr, some, String, List, arith, [],
  ◌∷◌, ◌++◌, map, if◌then◌else◌, ◌~◌,
}
use etos.Kube.{set_key}
use etos.Conversion.{
  copy, content, suite_from, suite_to, test_execution_from, test_execution_to, test_case_from,
  test_case_to, execution_from, execution_to, test_environment_from, test_environment_to,
  with_parameters,
}
use etos.Conversion.Types.{SpokeSuite, TestExecution}

-- Is the key there?
unfoldable pub has_key : List (String × String) → String → Bool
has_key [] key = false
has_key ((k, v) ∷ m) key = let rest = has_key m key in if k ~ key then true else rest

-- No key of the second list is there before it, in the first list or in its own.
unfoldable pub AreNew : List (String × String) → List (String × String) → Type 0
unfolding has_key
AreNew dst [] = Unit
AreNew dst (p ∷ src) = (has_key dst p.0 ≡ false) × AreNew (dst ++ p ∷ []) src

-- The environment variables of a test execution have each key once.
unfoldable pub HasKeysOnce : TestExecution → Type 0
unfolding AreNew content
HasKeysOnce src = AreNew [] (content src.environment.environment_variables)

unfoldable pub HaveKeysOnce : List TestExecution → Type 0
unfolding HasKeysOnce
HaveKeysOnce [] = Unit
HaveKeysOnce (src ∷ srcs) = HasKeysOnce src × HaveKeysOnce srcs

-- A test execution without its dependencies and additional resources, no checkout or map nil.
unfoldable pub trimmed : TestExecution → TestExecution
unfolding content
trimmed src = record {
  id = src.id;
  dependencies = [];
  test_case = src.test_case;
  execution = record {
    command = src.execution.command;
    checkout = some (content src.execution.checkout);
    pre_execution = src.execution.pre_execution;
  };
  environment = record {
    test_runner = src.environment.test_runner;
    environment_variables = some (content src.environment.environment_variables);
    additional_resources = [];
  };
}

unfoldable pub trimmed_suite : SpokeSuite → SpokeSuite
unfolding trimmed
trimmed_suite s = record {
  priority = s.priority;
  test_executions = map trimmed s.test_executions;
  dataset = s.dataset;
}

-- A write of a new key comes last.
set_key-new :
    (m : List (String × String)) (key value : String)
    → has_key m key ≡ false
    → set_key m key value ≡ m ++ (key, value) ∷ []
unfolding set_key has_key
set_key-new [] key value h = refl
set_key-new ((k, v) ∷ m) key value h = elim (Bool-cases (k ~ key)) [
  | inl same ↦ ground arith
  | inr other ↦ rw other (ap (λ r. (k, v) ∷ r) (set_key-new m key value (ground arith)))
]

-- New keys are copied as they are.
copy-new : (dst src : List (String × String)) → AreNew dst src → copy dst src ≡ dst ++ src
unfolding copy AreNew
copy-new dst [] h = sym (append-nil dst)
copy-new dst ((key, value) ∷ src) (h, hs) =
    rw (set_key-new dst key value h)
      (copy-new (dst ++ (key, value) ∷ []) src hs ∙ append_assoc dst ((key, value) ∷ []) src)

module _ (sorted : List String → List String) (sorted_nil : sorted [] ≡ []) where
  test_execution_from-to :
      (src : TestExecution)
      → HasKeysOnce src
      → test_execution_from sorted (test_execution_to src) ≡ trimmed src
  unfolding test_execution_from test_execution_to trimmed HasKeysOnce test_case_from test_case_to
      execution_from execution_to test_environment_from test_environment_to with_parameters content
  test_execution_from-to src h =
      rw (sorted_nil, copy-new [] (content src.environment.environment_variables) h) refl

  pub tests_from-to :
      (srcs : List TestExecution)
      → HaveKeysOnce srcs
      → map (test_execution_from sorted) (map test_execution_to srcs) ≡ map trimmed srcs
  unfolding HaveKeysOnce
  tests_from-to [] h = refl
  tests_from-to (src ∷ srcs) (h, hs) = rw (test_execution_from-to src h, tests_from-to srcs hs) refl

  -- A suite of v1beta1 that is stored as v1alpha1 and read again is the suite itself, except that
  -- dependencies and additional resources are gone and that a checkout or a map of environment
  -- variables that was nil is empty. The keys of each map are distinct, and sorting no keys gives none.
  pub suite_from-to :
      (s : SpokeSuite)
      → HaveKeysOnce s.test_executions
      → suite_from sorted (suite_to s) ≡ trimmed_suite s
  unfolding suite_from suite_to trimmed_suite
  suite_from-to s h =
      ap (λ (tests : List TestExecution). record s { test_executions = tests })
        (tests_from-to s.test_executions h)
