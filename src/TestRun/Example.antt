-- ===== src/TestRun/Example.antt =====
-- A test run for the tests, on a small cluster where every call succeeds.
use etos.Prelude.{
  ℕ, ◌+◌, ◌-◌, ◌==◌, false, Option, none, some, String, List, [], ◌∷◌, ◌~◌, if◌then◌else◌,
}
use etos.Prelude.Int.{pos}
use etos.Kube.{Condition}
use etos.Kube.Monad.{Sys, ok, err}
use etos.Api.{Provider, Test}
use etos.EnvironmentRequest.Example.{variable, bus, object}
use etos.TestRun.Types.{TestRun, TestRunApi, Suite, Cluster, Call}

abbrev pub condition_of : String → String → Condition ℕ
condition_of kind reason = record {
  kind = kind;
  status = "False";
  reason = reason;
  message = "why";
  last_transition_time = 1;
}

abbrev pub test : String → String → Test
test id runner = record { id = id; test_runner = runner; recipe = "" }

abbrev pub suite : Suite
suite = record {
  name = "suite";
  tests = test "1" "go" ∷ test "2" "python" ∷ test "3" "go" ∷ [];
  dataset = none;
}

abbrev pub test_run : List (Condition ℕ) → Option ℕ → TestRun ℕ ℕ
test_run conditions completed = record {
  metadata = object "run" [] none;
  spec = record {
    cluster = "cluster";
    schema_version = "0";
    id = "id";
    artifact = "artifact";
    retention = record { failure = some 100; success = some 10 };
    suite_runner = "runner";
    test_runner_version = "";
    environment_provider = "provider";
    identity = "pkg:etos";
    providers = record { iut = "iut"; execution_space = "space"; log_area = "log" };
    suites = suite ∷ [];
    suite_source = "";
    deadline = pos 50;
  };
  conditions = conditions;
  environment_requests = [];
  completion_time = completed;
  verdict = "";
}

abbrev pub provider : Provider ℕ
provider = record {
  name = "provider";
  image = "image";
  env = [];
  env_from = [];
  conditions =
      (record {
        kind = "Available";
        status = "True";
        reason = "";
        message = "";
        last_transition_time = 1;
      })
      ∷ [];
}

abbrev pub cluster : Cluster
cluster = record {
  name = "cluster";
  namespace = "etos";
  eiffel_message_bus = bus;
  etos_message_bus = bus;
  config = record {
    event_data_timeout = "60";
    test_suite_timeout = "60";
    environment_timeout = "60";
    encryption_key = variable;
    etos_api_url = "";
    etos_sse_url = "";
    routing_key_tag = "";
  };
  event_repository_host = "";
  etcd_host = "";
  etcd_port = "";
  open_telemetry = record { enabled = false; endpoint = ""; insecure = "" };
}

-- The world is the time.
abbrev pub api : TestRunApi ℕ String ℕ ℕ
api = record {
  now = λ w. (w, w);
  unix_now = λ w. (pos w, w);
  get = λ _ _ w. (ok (test_run [] none), w);
  update = λ tr w. (ok tr, w);
  update_status = λ tr w. (ok tr, w);
  delete = λ _ w. (none, w);
  get_cluster = λ _ _ w. (ok cluster, w);
  get_provider = λ _ _ w. (ok provider, w);
  get_publisher = λ _ _ w. (ok (λ _ _ v. (none, v)), w);
  list_requests = λ _ _ w. (ok [], w);
  create_request = λ _ w. (none, w);
  delete_request = λ _ w. (none, w);
  list_environments = λ _ _ w. (ok (object "environment" [] none ∷ []), w);
  jobs = record {
    list_jobs = λ _ _ _ w. (ok [], w);
    list_pods = λ _ _ w. (ok [], w);
    create_job = λ _ w. (none, w);
    delete_job = λ _ w. (none, w);
    parse_result = λ _. none;
  };
  get_reference = λ _. err "no reference";
  control_request = λ _ _. none;
  control_job = λ _ _. none;
  start_span = none;
  baggage = λ _ w. ("", w);
  range = λ groups w. (groups, w);
  new_uuid = λ w. ("uuid", w);
  parse_int = λ t. if t ~ "60" then some (pos 60) else none;
  has_prefix = λ name prefix. name ~ prefix;
  itoa = λ z. elim z [ pos n ↦ if n == 0 then "0" else "1" | _ ↦ "" ];
  unix = λ z. elim z [ pos n ↦ n | _ ↦ 0 ];
  time_text = λ _. "";
  add = λ t d. t + d;
  until = λ t now. t - now;
}

abbrev pub at : ℕ → Sys ℕ (Call ℕ ℕ)
at time = record { server = time; calls = [] }
