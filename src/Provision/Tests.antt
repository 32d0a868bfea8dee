-- ===== src/Provision/Tests.antt =====
-- The provider of environments with two triples of resources and three tests.
use mathlib.Core.List.{Perm, map}
use etos.Prelude.{ℕ, ◌≡◌, ◌≢◌, arith, refl, false, none, String, List, [], ◌∷◌, length, flatten}
use etos.Prelude.Int.{pos, ltb_ℤ, min_ℤ}
use etos.Kube.Monad.{Sys, ok, err, logged}
use etos.Api.{Test, EnvironmentRequest}
use etos.EnvironmentRequest.Example.{request}
use etos.Splitter.{new_round_robin_splitter, set_size, add_test, add_tests, split}
use etos.Provision.{
  Resource, NewEnvironment, max_possible, panicked, ProvisionApi, create_environments,
  create_environment, marshal, provision_all,
}
use etos.Provision.Created.{AreMade, create_environments-AreMade}
use etos.Provision.Safe.{provision_all-safe}
use etos.Provision.Distribution.{provision_all-Perm}

abbrev resource : String → Resource
resource name = record {
  name = name;
  id = name;
  deadline = pos 9;
  test_runner = "runner";
  rest = "";
}

abbrev two : List Resource
two = resource "a" ∷ resource "b" ∷ []

abbrev a_test : String → Test
a_test id = record { id = id; test_runner = "runner"; recipe = "" }

abbrev three : List Test
three = a_test "1" ∷ a_test "2" ∷ a_test "3" ∷ []

abbrev with_tests : EnvironmentRequest ℕ
with_tests =
    let plain = request "Active" none in
    let plain_spec = plain.spec in record plain { spec = record plain_spec { tests = three } }

-- The world is a counter.
abbrev api : ProvisionApi ℕ String
api = record {
  get_iuts = λ _ _ w. (ok two, w);
  get_log_areas = λ _ _ w. (ok two, w);
  get_execution_spaces = λ _ _ w. (ok two, w);
  kubernetes_client = λ w. (none, w);
  create = λ _ w. (none, w);
  executor_json = λ r. ok r.rest;
  log_area_json = λ r. ok r.rest;
  iut_json = λ r. ok r.rest;
  decimal = λ _. "0";
}

abbrev start : Sys ℕ NewEnvironment
start = record { server = 0; calls = [] }

provided : (provision_all api with_tests "etos" "not enough" two two two start).0 ≡ ok tt
unfolding provision_all create_environments create_environment marshal add_tests add_test split
    set_size new_round_robin_splitter
provided = refl

provision_all-Perm_example :
    (envs : List NewEnvironment) × (ltb_ℤ (pos (max_possible two two two)) (min_ℤ (pos 2) (pos 1))
      ≡ false)
    × (length envs ≡ 2)
    × ((provision_all api with_tests "etos" "not enough" two two two start).1.calls
        ≡ logged envs [])
    × Perm (flatten (map (λ (env : NewEnvironment). env.tests) envs)) three
provision_all-Perm_example =
    provision_all-Perm api with_tests "etos" "not enough" two two two start provided

made : (create_environments api with_tests "etos" ([] ∷ three ∷ []) two two two 2 0 start).0 ≡ ok tt
unfolding create_environments create_environment marshal
made = refl

create_environments-AreMade_example :
    (envs : List NewEnvironment) × (length envs ≡ 2)
    × AreMade ([] ∷ three ∷ []) two two two 0 envs
    × ((create_environments api with_tests "etos" ([] ∷ three ∷ []) two two two 2 0 start).1.calls
        ≡ logged envs [])
create_environments-AreMade_example =
    create_environments-AreMade api with_tests "etos" ([] ∷ three ∷ []) two two two 2 0 start made

provision_all-safe_example :
    (provision_all api with_tests "etos" "not enough" two two two start).0 ≢ err panicked
provision_all-safe_example =
    provision_all-safe api with_tests "etos" "not enough" two two two start (omega arith)
      (omega arith)
