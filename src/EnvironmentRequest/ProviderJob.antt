-- ===== src/EnvironmentRequest/ProviderJob.antt =====
-- internal/controller/environmentrequest_controller.go: the job that provides environments for a
-- request (environmentProviderJob), and its environment variables (envVarListFrom).
--
-- An image without a pull policy, the resources of the containers and the annotations of the job,
-- which are empty, are left out. `EnvironmentRequest.Spec.Image` is taken to be set.
use etos.Prelude.{Option, none, some, String, ◌<>◌, List, [], ◌∷◌, ◌++◌, if◌then◌else◌, ◌~◌}
use etos.Kube.{Library, at_key}
use etos.Kube.Monad.{Result, ok, err, M, ◌>>?◌, pure, ask}
use etos.Kube.Pod.{Container, JobSpec}
use etos.Api.{EnvironmentRequest, Provider, OpenTelemetry}
use etos.Api.Values.{get}
use etos.EnvironmentRequest.Types.{EnvironmentRequestApi, Call}

abbrev pub label_cluster : String
label_cluster = "etos.eiffel-community.github.io/cluster"

-- The secrets that the environment variables hold.
pub record Secrets : Type 0 where
  pub encryption_key : String
  pub etos_password : String
  pub eiffel_password : String

-- The two variables of OpenTelemetry, if the request has a cluster that uses it.
pub telemetry : Option OpenTelemetry → List (String × String)
telemetry none = []
telemetry (some t) =
    if t.enabled
    then ("OTEL_EXPORTER_OTLP_ENDPOINT", t.endpoint)
      ∷ ("OTEL_EXPORTER_OTLP_INSECURE", t.insecure)
      ∷ []
    else []

module _ {Time : Type 0} where
  -- The list `envList`.
  pub env_list : EnvironmentRequest Time → Secrets → List (String × String)
  env_list er secrets =
      let config = er.spec.config in
      let eiffel = config.eiffel_message_bus in
      let etos_bus = config.etos_message_bus in
      ("REQUEST", er.metadata.name)
      ∷ ("ETOS_API", config.etos_api)
      ∷ ("ETOS_SSE", config.etos_sse)
      ∷ ("ETOS_GRAPHQL_SERVER", config.graph_ql_server)
      ∷ ("ETOS_ENCRYPTION_KEY", secrets.encryption_key)
      ∷ ("ETOS_ETCD_HOST", config.etcd_host)
      ∷ ("ETOS_ETCD_PORT", config.etcd_port)
      ∷ ("ETOS_EVENT_DATA_TIMEOUT", config.environment_provider_event_data_timeout)
      ∷ ("ETOS_WAIT_FOR_IUT_TIMEOUT", config.wait_for_timeout)
      ∷ ("ENVIRONMENT_PROVIDER_WAIT_FOR_IUT_TIMEOUT", config.wait_for_timeout)
      ∷ ("ETOS_WAIT_FOR_EXECUTION_SPACE_TIMEOUT", config.wait_for_timeout)
      ∷ ("ENVIRONMENT_PROVIDER_WAIT_FOR_EXECUTION_SPACE_TIMEOUT", config.wait_for_timeout)
      ∷ ("ETOS_WAIT_FOR_LOG_AREA_TIMEOUT", config.wait_for_timeout)
      ∷ ("ENVIRONMENT_PROVIDER_WAIT_FOR_LOG_AREA_TIMEOUT", config.wait_for_timeout)
      ∷ ("TEST_SUITE_TIMEOUT", config.environment_provider_test_suite_timeout)
      ∷ ("ETR_VERSION", config.test_runner_version)
      ∷ ("RABBITMQ_HOST", eiffel.host)
      ∷ ("RABBITMQ_VHOST", eiffel.vhost)
      ∷ ("RABBITMQ_PORT", eiffel.port)
      ∷ ("RABBITMQ_SSL", eiffel.ssl)
      ∷ ("RABBITMQ_EXCHANGE", eiffel.exchange)
      ∷ ("RABBITMQ_USERNAME", eiffel.username)
      ∷ ("RABBITMQ_PASSWORD", secrets.eiffel_password)
      ∷ ("RABBITMQ_ROUTING_KEY", config.routing_key_tag)
      ∷ ("ETOS_RABBITMQ_HOST", etos_bus.host)
      ∷ ("ETOS_RABBITMQ_VHOST", etos_bus.vhost)
      ∷ ("ETOS_RABBITMQ_PORT", etos_bus.port)
      ∷ ("ETOS_RABBITMQ_SSL", etos_bus.ssl)
      ∷ ("ETOS_RABBITMQ_EXCHANGE", etos_bus.exchange)
      ∷ ("ETOS_RABBITMQ_USERNAME", etos_bus.username)
      ∷ ("ETOS_RABBITMQ_PASSWORD", secrets.etos_password)
      ∷ ("ETOS_ROUTING_KEY_TAG", config.routing_key_tag)
      ∷ (
        "TRACEPARENT",
        at_key er.metadata.annotations "etos.eiffel-community.github.io/traceparent",
      )
      ∷ ("BAGGAGE", at_key er.metadata.annotations "etos.eiffel-community.github.io/baggage")
      ∷ ("TRACESTATE", at_key er.metadata.annotations "etos.eiffel-community.github.io/tracestate")
      ∷ []

  pub init_container :
      EnvironmentRequest Time → String → List (String × String) → Provider Time → Container
  init_container er name env provider = record {
    name = name;
    image = provider.image;
    env = provider.env ++ env;
    env_from = provider.env_from;
    command = [];
    args =
        ("-namespace=" <> er.metadata.namespace)
        ∷ ("-environment-request=" <> er.metadata.name)
        ∷ ("-provider=" <> provider.name)
        ∷ [];
  }

  pub job_labels : EnvironmentRequest Time → List (String × String)
  job_labels er =
      ("app.kubernetes.io/name", "environment-provider")
      ∷ ("app.kubernetes.io/part-of", "etos")
      ∷ ((if er.spec.identifier ~ ""
            then []
            else ("etos.eiffel-community.github.io/id", er.spec.identifier) ∷ [])
          ++ (let cluster = at_key er.metadata.labels label_cluster in
              if cluster ~ "" then [] else (label_cluster, cluster) ∷ []))

  -- The job, from the three providers and the environment variables.
  pub provider_job :
      EnvironmentRequest Time
      → List (String × String)
      → Provider Time
      → Provider Time
      → Provider Time
      → JobSpec
  unfolding init_container job_labels
  provider_job er env iut log_area execution_space = record {
    name = "";
    generate_name = "environment-provider-";
    namespace = er.metadata.namespace;
    labels = job_labels er;
    ttl_seconds_after_finished = none;
    backoff_limit = 0;
    template_name = er.metadata.name;
    grace_period = 30;
    service_account_name = er.spec.service_account_name;
    restart_policy = "Never";
    init_containers =
        init_container er "iut-provider" env iut
        ∷ init_container er "log-area-provider" env log_area
        ∷ init_container er "execution-space-provider" env execution_space
        ∷ [];
    containers =
        record {
          name = "environment-provider";
          image = er.spec.image;
          env = env;
          env_from = [];
          command = [];
          args =
              ("-namespace=" <> er.metadata.namespace)
              ∷ ("-environment-request=" <> er.metadata.name)
              ∷ "-provider=environment-provider"
              ∷ [];
        }
        ∷ [];
  }

module _ {W E Time : Type 0} (L : Library E Time) (api : EnvironmentRequestApi W E Time) where
  unfoldable pub env_var_list_from :
      EnvironmentRequest Time
      → Option OpenTelemetry
      → M W (Call Time) (Result E (List (String × String)))
  unfolding env_list telemetry
  env_var_list_from er cluster =
      get L api.vars er.spec.config.encryption_key er.metadata.namespace >>? λ key.
      get L api.vars er.spec.config.etos_message_bus.password er.metadata.namespace
      >>? λ etos_password.
          get L api.vars er.spec.config.eiffel_message_bus.password er.metadata.namespace
          >>? λ eiffel_password. pure (
              ok (
                env_list er (record {
                  encryption_key = key;
                  etos_password = etos_password;
                  eiffel_password = eiffel_password;
                })
                ++ telemetry cluster))

  -- The cluster of the request's label, if it has one.
  unfoldable pub get_cluster :
      EnvironmentRequest Time → M W (Call Time) (Result E (Option OpenTelemetry))
  get_cluster er =
      let name = at_key er.metadata.labels label_cluster in
      if name ~ ""
      then pure (ok none)
      else (ask (api.get_cluster er.metadata.namespace name) >>? λ c. pure (ok (some c)))

  -- environmentProviderJob. The last step makes the request the controller of its job.
  unfoldable pub environment_provider_job :
      EnvironmentRequest Time → M W (Call Time) (Result E JobSpec)
  unfolding get_cluster env_var_list_from provider_job
  environment_provider_job er = get_cluster er >>? λ cluster.
      env_var_list_from er cluster >>? λ env.
      ask (api.get_provider er.metadata.namespace er.spec.providers.iut) >>? λ iut.
      ask (api.get_provider er.metadata.namespace er.spec.providers.log_area) >>? λ log_area.
      ask (api.get_provider er.metadata.namespace er.spec.providers.execution_space)
      >>? λ execution_space.
          (let spec = provider_job er env iut log_area execution_space in
            pure (elim (api.set_controller_reference er spec) [ none ↦ ok spec | some e ↦ err e ]))
