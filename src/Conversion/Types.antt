-- ===== src/Conversion/Types.antt =====
-- api/v1alpha1 and api/v1beta1: a suite, a test run and an environment in the hub version (v1alpha1)
-- and in the spoke version (v1beta1).
--
-- A slice or a map that may be nil is an Option; a map is the list of its keys and values in some
-- order, which Go leaves open. `int` is ℤ, and JSON is a text.
use etos.Prelude.{Option, String, List}
use etos.Prelude.Int.{ℤ}

-- v1alpha1.TestCase.
pub record HubTestCase : Type 0 where
  pub id : String
  pub version : String
  pub tracker : String
  pub uri : String

-- v1alpha1.Execution.
pub record HubExecution : Type 0 where
  pub checkout : Option (List String)
  pub parameters : Option (List (String × String))
  pub environment : Option (List (String × String))
  pub command : String
  pub execute : Option (List String)
  pub test_runner : String

-- v1alpha1.Test, whose field Environment is an empty struct.
pub record HubTest : Type 0 where
  pub id : String
  pub test_case : HubTestCase
  pub execution : HubExecution

-- v1alpha1.Suite.
pub record HubSuite : Type 0 where
  pub name : String
  pub priority : ℤ
  pub tests : List HubTest
  pub dataset : Option String

-- v1beta1.TestCase.
pub record SpokeTestCase : Type 0 where
  pub id : String
  pub version : String
  pub repository : String
  pub uri : String

-- v1beta1.Execution.
pub record SpokeExecution : Type 0 where
  pub command : String
  pub checkout : Option (List String)
  pub pre_execution : Option (List String)

-- v1beta1.AdditionalResource.
pub record AdditionalResource : Type 0 where
  pub resource_type : String
  pub json : Option String

-- v1beta1.TestEnvironment.
pub record TestEnvironment : Type 0 where
  pub test_runner : String
  pub environment_variables : Option (List (String × String))
  pub additional_resources : List AdditionalResource

-- v1beta1.TestExecution.
pub record TestExecution : Type 0 where
  pub id : String
  pub dependencies : List String
  pub test_case : SpokeTestCase
  pub execution : SpokeExecution
  pub environment : TestEnvironment

-- v1beta1.Suite.
pub record SpokeSuite : Type 0 where
  pub priority : ℤ
  pub test_executions : List TestExecution
  pub dataset : Option String

-- Providers, of both versions.
pub record ProviderNames : Type 0 where
  pub iut : String
  pub log_area : String
  pub execution_space : String

-- Retention, of both versions.
pub record Retention (Span : Type 0) : Type 0 where
  pub failure : Option Span
  pub success : Option Span

-- Image, of both versions.
pub record Image : Type 0 where
  pub image : String
  pub image_pull_policy : String

-- The types that are Kubernetes' own: metav1.ObjectMeta, metav1.Condition, corev1.ObjectReference,
-- metav1.Time and metav1.Duration.
pub record Machinery : Type 1 where
  pub Meta : Type 0
  pub name : Meta → String
  pub generate_name : Meta → String
  pub Condition : Type 0
  pub Reference : Type 0
  pub Time : Type 0
  pub Span : Type 0

module _ (K : Machinery) where
  -- v1alpha1.TestRun. SuiteRunner, LogListener and EnvironmentProvider embed a pointer to an Image.
  pub record HubTestRun : Type 0 where
    pub metadata : K.Meta
    pub cluster : String
    pub schema_version : String
    pub id : String
    pub artifact : String
    pub retention : Retention K.Span
    pub suite_runner : Option (Option Image)
    pub test_runner : Option String
    pub log_listener : Option (Option Image)
    pub environment_provider : Option (Option Image)
    pub identity : String
    pub providers : ProviderNames
    pub suites : List HubSuite
    pub suite_source : String
    pub timeout : ℤ
    pub deadline : ℤ
    pub conditions : List K.Condition
    pub suite_runners : List K.Reference
    pub environment_requests : List K.Reference
    pub start_time : Option K.Time
    pub completion_time : Option K.Time
    pub verdict : String

  -- v1beta1.TestRun, with the TestSuite that its spec embeds.
  pub record SpokeTestRun : Type 0 where
    pub metadata : K.Meta
    pub spec_name : String
    pub schema_version : String
    pub suites : List SpokeSuite
    pub id : String
    pub artifact : String
    pub identity : String
    pub cluster : String
    pub providers : ProviderNames
    pub suite_runner : Option Image
    pub environment_provider : Option Image
    pub test_runner : Option String
    pub suite_source : String
    pub timeout : ℤ
    pub deadline : ℤ
    pub retention : Retention K.Span
    pub conditions : List K.Condition
    pub environment_requests : List K.Reference
    pub completion_time : Option K.Time
    pub verdict : String

  -- v1alpha1.Environment.
  pub record HubEnvironment : Type 0 where
    pub metadata : K.Meta
    pub name : String
    pub suite_id : String
    pub sub_suite_id : String
    pub main_suite_id : String
    pub artifact : String
    pub context : String
    pub providers : Option ProviderNames
    pub deadline : ℤ
    pub priority : ℤ
    pub tests : List HubTest
    pub test_runner : String
    pub iut : Option String
    pub executor : Option String
    pub log_area : Option String
    pub conditions : List K.Condition
    pub environment_releasers : List K.Reference
    pub completion_time : Option K.Time

  -- v1beta1.Environment, with the Suite that its spec embeds.
  pub record SpokeEnvironment : Type 0 where
    pub metadata : K.Meta
    pub suite : SpokeSuite
    pub name : String
    pub id : String
    pub testrun_id : String
    pub main_suite_id : String
    pub artifact : String
    pub context : String
    pub test_runner : String
    pub providers : ProviderNames
    pub iut : Option String
    pub executor : Option String
    pub log_area : Option String
    pub deadline : ℤ
    pub conditions : List K.Condition
    pub completion_time : Option K.Time
