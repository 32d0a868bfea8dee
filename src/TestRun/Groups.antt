-- ===== src/TestRun/Groups.antt =====
-- internal/controller/testrun_controller.go: how createEnvironmentRequests groups the tests of a suite
-- by their test runner. The maps are association lists, with a new key at the end.
use etos.Prelude.{ℕ, ◌+◌, Option, none, some, String, List, [], ◌∷◌, ◌++◌, if◌then◌else◌, ◌~◌}
use etos.Api.{Test}

-- The map `testrunners` after one more test.
unfoldable pub add_to_group : Test → List (String × List Test) → List (String × List Test)
add_to_group test [] = (test.test_runner, test ∷ []) ∷ []
add_to_group test ((runner, tests) ∷ groups) =
    let rest = add_to_group test groups in
    if runner ~ test.test_runner
    then (runner, tests ++ test ∷ []) ∷ groups
    else (runner, tests) ∷ rest

unfoldable pub index_of : String → List (String × ℕ) → Option ℕ
index_of runner [] = none
index_of runner ((r, i) ∷ indices) = if r ~ runner then some i else index_of runner indices

-- The loop over the tests: the map `testrunners`, the map `indices` and the next index.
unfoldable pub group_tests :
    List Test
    → List (String × List Test)
    → List (String × ℕ)
    → ℕ
    → List (String × List Test) × List (String × ℕ)
unfolding add_to_group index_of
group_tests [] groups indices index = (groups, indices)
group_tests (test ∷ tests) groups indices index = elim (index_of test.test_runner indices) [
  | some _ ↦ group_tests tests (add_to_group test groups) indices index
  | none ↦
      group_tests tests (add_to_group test groups) (indices ++ (test.test_runner, index) ∷ [])
        (index + 1)
]
