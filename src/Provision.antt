-- ===== src/Provision.antt =====
-- cmd/environmentprovider/main.go: the provider of environments, which makes one environment of each
-- triple of an IUT, a log area and an execution space, and splits the tests over them.
--
-- The resources and encoding/json are `ProvisionApi`. What Go panics at (adding a test to a splitter of
-- size 0, an index out of range) is the fault `panicked`. Tracing and logging are left out.
pub mod Created
pub mod Distribution
pub mod Safe
mod Tests
use etos.Prelude.{
  ℕ, zero, suc, ◌+◌, ltb, Bool, true, false, Option, none, some, String, ◌<>◌, List, [], ◌∷◌, ◌++◌,
  length, get_elem?, if◌then◌else◌, ◌~◌,
}
use etos.Prelude.Int.{ℤ, pos, ltb_ℤ, min_ℤ}
use etos.Kube.{ObjectMeta, OwnerReference, Library, at_key}
use etos.Kube.Monad.{Sys, Result, ok, err, M, ◌>>=◌, ◌>>?◌, pure, ask, tell}
use etos.Api.{Test, EnvironmentRequest, Providers}
use etos.Kube.Monad.{and_then}
use etos.Splitter.{RoundRobin, new_round_robin_splitter, set_size, add_tests, split}

-- An Iut, a LogArea or an ExecutionSpace. The identifier and the test runner are read of execution
-- spaces only; `rest` is what else its specification says.
pub record Resource : Type 0 where
  pub name : String
  pub id : String
  pub deadline : ℤ
  pub test_runner : String
  pub rest : String

-- v1alpha1.Environment, as it is created.
pub record NewEnvironment : Type 0 where
  pub labels : List (String × String)
  pub name : String
  pub namespace : String
  pub owner : OwnerReference
  pub spec_name : String
  pub priority : ℕ
  pub providers : Providers
  pub deadline : ℤ
  pub suite_id : String
  pub main_suite_id : String
  pub artifact : String
  pub sub_suite_id : String
  pub test_runner : String
  pub context : String
  pub executor : String
  pub log_area : String
  pub iut : String
  pub tests : List Test

pub data Fault (E : Type 0) : Type 0 where
  failed : E → Fault E
  panicked : Fault E

pub record ProvisionApi (W E : Type 0) : Type 0 where
  -- The resources of a request, by its identifier and namespace.
  pub get_iuts : String → String → W → Result E (List Resource) × W
  pub get_log_areas : String → String → W → Result E (List Resource) × W
  pub get_execution_spaces : String → String → W → Result E (List Resource) × W
  pub kubernetes_client : W → Option E × W
  pub create : NewEnvironment → W → Option E × W
  -- json.Marshal of the three specifications.
  pub executor_json : Resource → Result E String
  pub log_area_json : Resource → Result E String
  pub iut_json : Resource → Result E String
  -- %d.
  pub decimal : ℕ → String

-- The result of a call, as a step of a chain that may also panic.
abbrev pub lift : {E A : Type 0} → Result E A → Result (Fault E) A
lift (ok a) = ok a
lift (err e) = err (failed e)

abbrev pub lift_error : {E : Type 0} → Option E → Result (Fault E) (Unit {0})
lift_error none = ok tt
lift_error (some e) = err (failed e)

-- An index or a splitter that panics.
abbrev pub or_panic : {E A : Type 0} → Option A → Result (Fault E) A
or_panic none = err panicked
or_panic (some a) = ok a

abbrev pub min_ℕ : ℕ → ℕ → ℕ
min_ℕ a b = if ltb b a then b else a

abbrev pub max_possible : (iuts log_areas spaces : List Resource) → ℕ
max_possible iuts log_areas spaces = min_ℕ (min_ℕ (length iuts) (length log_areas)) (length spaces)

module _ {Time : Type 0} where
  pub environment_labels : EnvironmentRequest Time → Resource → List (String × String)
  environment_labels er space =
      let cluster = at_key er.metadata.labels "etos.eiffel-community.github.io/cluster" in
      (("etos.eiffel-community.github.io/environment-request", er.metadata.name)
        ∷ ("etos.eiffel-community.github.io/environment-request-id", er.spec.id)
        ∷ ("etos.eiffel-community.github.io/sub-suite-id", space.id)
        ∷ ("app.kubernetes.io/name", "environment-provider")
        ∷ ("app.kubernetes.io/part-of", "etos")
        ∷ ("etos.eiffel-community.github.io/suite-id", er.spec.id)
        ∷ [])
      ++ ((if cluster ~ "" then [] else ("etos.eiffel-community.github.io/cluster", cluster) ∷ [])
          ++ (if er.spec.identifier ~ ""
              then []
              else ("etos.eiffel-community.github.io/id", er.spec.identifier) ∷ []))

-- The three specifications as JSON.
pub record Json : Type 0 where
  pub executor : String
  pub log_area : String
  pub iut : String

-- What one environment is made of.
pub record Slot : Type 0 where
  pub iut : Resource
  pub log_area : Resource
  pub space : Resource
  pub its_tests : List Test

-- The four indices, the first of which that is out of range panics.
abbrev pub slot_of :
    {E : Type 0}
    → Option Resource
    → Option Resource
    → Option Resource
    → Option (List Test)
    → Result (Fault E) Slot
slot_of none space iut its_tests = err panicked
slot_of (some log_area) none iut its_tests = err panicked
slot_of (some log_area) (some space) none its_tests = err panicked
slot_of (some log_area) (some space) (some iut) none = err panicked
slot_of (some log_area) (some space) (some iut) (some its_tests) =
    ok (record { iut = iut; log_area = log_area; space = space; its_tests = its_tests })

-- The three calls of json.Marshal, up to the first error.
pub marshal : {W E : Type 0} → ProvisionApi W E → Slot → Result E Json
marshal api slot = and_then (api.executor_json slot.space) λ executor.
    and_then (api.log_area_json slot.log_area) λ log_area.
      and_then (api.iut_json slot.iut)
        λ iut. ok (record { executor = executor; log_area = log_area; iut = iut })

module _ {W E Time : Type 0} (api : ProvisionApi W E) (er : EnvironmentRequest Time)
    (namespace : String) where
  pub new_environment : ℕ → Slot → Json → NewEnvironment
  unfolding environment_labels
  new_environment index slot json =
      let iut = slot.iut in
      let space = slot.space in
      let log_area = slot.log_area in
      record {
        labels = environment_labels er space;
        name = space.id;
        namespace = namespace;
        owner = record { kind = "EnvironmentRequest"; name = er.metadata.name };
        spec_name = er.spec.name <> ("_SubSuite_" <> api.decimal index);
        priority = 1;
        providers = record {
          iut = iut.name;
          log_area = log_area.name;
          execution_space = space.name;
        };
        deadline = min_ℤ (min_ℤ space.deadline log_area.deadline) iut.deadline;
        suite_id = er.spec.identifier;
        main_suite_id = er.spec.id;
        artifact = er.spec.artifact;
        sub_suite_id = space.id;
        test_runner = space.test_runner;
        context = er.spec.id;
        executor = json.executor;
        log_area = json.log_area;
        iut = json.iut;
        tests = slot.its_tests;
      }

  -- CreateEnvironment.
  pub create_environment : ℕ → Slot → M W NewEnvironment (Result (Fault E) (Unit {0}))
  unfolding new_environment marshal
  create_environment index slot = (ask api.kubernetes_client >>= λ e. pure (lift_error e)) >>? λ _.
      pure (lift (marshal api slot)) >>? λ json.
      (let new = new_environment index slot json in
        tell new (api.create new) >>= λ e. pure (lift_error e))

  -- createEnvironments, from an index on for a number of environments.
  pub create_environments :
      List (List Test)
      → List Resource
      → List Resource
      → List Resource
      → ℕ
      → ℕ
      → M W NewEnvironment (Result (Fault E) (Unit {0}))
  unfolding create_environment
  create_environments tests iuts log_areas spaces zero index = pure (ok tt)
  create_environments tests iuts log_areas spaces (suc n) index =
      pure (
        slot_of (get_elem? log_areas index) (get_elem? spaces index) (get_elem? iuts index)
          (get_elem? tests index))
      >>? λ slot. create_environment index slot >>? λ _.
          create_environments tests iuts log_areas spaces n (index + 1)

  -- Provision, from the three lists on.
  pub provision_all :
      E
      → List Resource
      → List Resource
      → List Resource
      → M W NewEnvironment (Result (Fault E) (Unit {0}))
  unfolding create_environments
  provision_all not_enough iuts log_areas spaces =
      let min_required = min_ℤ er.spec.maximum_amount er.spec.minimum_amount in
      if ltb_ℤ (pos (max_possible iuts log_areas spaces)) min_required
      then pure (err (failed not_enough))
      else (pure (
            or_panic (
              add_tests er.spec.tests
                (set_size (max_possible iuts log_areas spaces) new_round_robin_splitter)))
          >>? λ splitter.
              create_environments (split splitter) iuts log_areas spaces
                (max_possible iuts log_areas spaces) 0)

  -- Provision. `not_enough` is the error that it makes of the numbers.
  unfoldable pub provision : E → M W NewEnvironment (Result (Fault E) (Unit {0}))
  unfolding provision_all
  provision not_enough =
      (ask (api.get_iuts er.spec.id namespace) >>= λ r. pure (lift r)) >>? λ iuts.
      (ask (api.get_log_areas er.spec.id namespace) >>= λ r. pure (lift r)) >>? λ log_areas.
      (ask (api.get_execution_spaces er.spec.id namespace) >>= λ r. pure (lift r)) >>? λ spaces.
      provision_all not_enough iuts log_areas spaces
