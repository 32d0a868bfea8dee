-- ===== src/Api.antt =====
-- api/v1alpha1 and api/v1alpha2: the resources of ETOS that the controllers and the providers share.
--
-- A field that no modelled code reads is left out. JSON payloads are texts. `int` and `int64` are ℤ.
pub mod Values
use Values.{Var, RabbitMq}
use etos.Prelude.{ℕ, Bool, Option, String, List}
use etos.Prelude.Int.{ℤ}
use etos.Kube.{Condition, ObjectMeta}

-- v1alpha1.Test, with its Execution's test runner.
pub record Test : Type 0 where
  pub id : String
  pub test_runner : String
  -- The test case and the rest of the execution.
  pub recipe : String

pub record EnvironmentProviders : Type 0 where
  pub iut : String
  pub log_area : String
  pub execution_space : String
  pub test_runner : String
  pub test_runner_image : String

pub record EnvironmentProviderJobConfig : Type 0 where
  pub eiffel_message_bus : RabbitMq
  pub etos_message_bus : RabbitMq
  pub etos_api : String
  pub etos_sse : String
  pub encryption_key : Var
  pub etcd_host : String
  pub etcd_port : String
  pub graph_ql_server : String
  pub routing_key_tag : String
  pub wait_for_timeout : String
  pub test_runner_version : String
  pub environment_provider_event_data_timeout : String
  pub environment_provider_service_account : String
  pub environment_provider_test_suite_timeout : String

pub record EnvironmentRequestSpec : Type 0 where
  pub id : String
  pub name : String
  pub schema_version : String
  pub image : String
  pub identifier : String
  pub artifact : String
  pub identity : String
  pub minimum_amount : ℤ
  pub maximum_amount : ℤ
  pub deadline : ℤ
  pub dataset : Option String
  pub providers : EnvironmentProviders
  pub tests : List Test
  pub service_account_name : String
  pub config : EnvironmentProviderJobConfig

pub record EnvironmentRequest (Time : Type 0) : Type 0 where
  pub metadata : ObjectMeta Time
  pub spec : EnvironmentRequestSpec
  pub conditions : List (Condition Time)
  pub completion_time : Option Time

pub record Provider (Time : Type 0) : Type 0 where
  pub name : String
  pub image : String
  pub env : List (String × String)
  pub env_from : List String
  pub conditions : List (Condition Time)

pub record OpenTelemetry : Type 0 where
  pub enabled : Bool
  pub endpoint : String
  pub insecure : String

-- v1alpha1.Providers: the names of three providers, or of the resources they gave.
pub record Providers : Type 0 where
  pub iut : String
  pub execution_space : String
  pub log_area : String
