-- ===== src/EnvironmentRequest/Example.antt =====
-- An environment request for the tests.
use etos.Prelude.{ℕ, Option, none, String, List, [], ◌∷◌}
use etos.Prelude.Int.{pos}
use etos.Kube.{Condition, ObjectMeta, OwnerReference}
use etos.Api.{EnvironmentRequest, EnvironmentRequestSpec}
use etos.Api.Values.{Var, RabbitMq}
use etos.Controller.Reasons.{status_ready}

abbrev pub variable : Var
variable = record { value = "secret"; config_map_key_ref = none; secret_key_ref = none }

abbrev pub bus : RabbitMq
bus = record {
  host = "bus";
  exchange = "eiffel";
  password = variable;
  username = "etos";
  port = "5672";
  ssl = "false";
  vhost = "/";
  stream_port = "5552";
  stream_name = "stream";
}

abbrev pub spec : EnvironmentRequestSpec
spec = record {
  id = "id";
  name = "suite";
  schema_version = "0";
  image = "image";
  identifier = "identifier";
  artifact = "artifact";
  identity = "pkg:etos";
  minimum_amount = pos 1;
  maximum_amount = pos 2;
  deadline = pos 100;
  dataset = none;
  providers = record {
    iut = "iut";
    log_area = "log-area";
    execution_space = "execution-space";
    test_runner = "runner";
    test_runner_image = "runner-image";
  };
  tests = [];
  service_account_name = "account";
  config = record {
    eiffel_message_bus = bus;
    etos_message_bus = bus;
    etos_api = "";
    etos_sse = "";
    encryption_key = variable;
    etcd_host = "";
    etcd_port = "";
    graph_ql_server = "";
    routing_key_tag = "";
    wait_for_timeout = "60";
    test_runner_version = "";
    environment_provider_event_data_timeout = "";
    environment_provider_service_account = "";
    environment_provider_test_suite_timeout = "";
  };
}

abbrev pub condition_of : String → Condition ℕ
condition_of reason = record {
  kind = status_ready;
  status = "False";
  reason = reason;
  message = "";
  last_transition_time = 1;
}

abbrev pub object : String → List OwnerReference → Option ℕ → ObjectMeta ℕ
object name owners deletion = record {
  name = name;
  namespace = "etos";
  labels = [];
  annotations = [];
  finalizers = "etos.eiffel-community.github.io/release" ∷ [];
  owner_references = owners;
  deletion_timestamp = deletion;
}

abbrev pub request : String → Option ℕ → EnvironmentRequest ℕ
request reason completion = record {
  metadata = object "request" [] none;
  spec = spec;
  conditions = condition_of reason ∷ [];
  completion_time = completion;
}
