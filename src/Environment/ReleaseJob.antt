-- ===== src/Environment/ReleaseJob.antt =====
-- internal/controller/environment_controller.go: the job that releases an environment (releaseJob).
--
-- An image pull policy, the resources of the containers and the annotations, which are empty, are left
-- out. `EnvironmentRequest.Spec.Image` is taken to be set.
use etos.Prelude.{false, Option, none, some, String, ◌<>◌, List, [], ◌∷◌, ◌++◌, if◌then◌else◌, ◌~◌}
use etos.Kube.{OwnerReference, Library, at_key}
use etos.Kube.Monad.{and_then, Result, ok, err, M, ◌>>?◌, pure, ask}
use etos.Kube.Pod.{Container, JobSpec}
use etos.Api.{EnvironmentRequest, Provider, OpenTelemetry}
use etos.EnvironmentRequest.ProviderJob.{label_cluster, telemetry}
use etos.Releasers.{
  iut_releaser_name, log_area_releaser_name, execution_space_releaser_name, release_container,
}
use etos.Environment.Types.{
  Environment, iut_kind, log_area_kind, execution_space_kind, Resource, EnvironmentApi, Call,
}
use etos.Environment.Resources.{or_else, get_resource}

-- The name of the last owner that is an environment request, or the text before.
pub request_owner : List OwnerReference → String → String
request_owner [] name = name
request_owner (o ∷ os) name =
    request_owner os (if o.kind ~ "EnvironmentRequest" then o.name else name)

module _ {Time : Type 0} where
  -- The list `envList`.
  pub release_env : EnvironmentRequest Time → Option OpenTelemetry → List (String × String)
  release_env er cluster =
      (("TRACEPARENT", at_key er.metadata.annotations "etos.eiffel-community.github.io/traceparent")
        ∷ ("BAGGAGE", at_key er.metadata.annotations "etos.eiffel-community.github.io/baggage")
        ∷ (
          "TRACESTATE",
          at_key er.metadata.annotations "etos.eiffel-community.github.io/tracestate",
        )
        ∷ [])
      ++ telemetry cluster

  abbrev pub with_env : Provider Time → List (String × String) → Provider Time
  with_env provider env = record provider { env = provider.env ++ env }

  pub release_labels : Environment Time → EnvironmentRequest Time → List (String × String)
  release_labels env er =
      let cluster = at_key er.metadata.labels label_cluster in
      (("app.kubernetes.io/name", "environment-releaser")
        ∷ ("app.kubernetes.io/part-of", "etos")
        ∷ (
          "etos.eiffel-community.github.io/id",
          at_key env.metadata.labels "etos.eiffel-community.github.io/id",
        )
        ∷ ("etos.eiffel-community.github.io/sub-suite", env.metadata.name)
        ∷ [])
      ++ (if cluster ~ "" then [] else (label_cluster, cluster) ∷ [])

  -- The job, from its environment variables and the containers that release the resources.
  pub release_spec :
      Environment Time → EnvironmentRequest Time → List (String × String) → List Container → JobSpec
  unfolding release_labels
  release_spec env er variables releasers = record {
    name = env.metadata.name;
    generate_name = "";
    namespace = env.metadata.namespace;
    labels = release_labels env er;
    ttl_seconds_after_finished = some 300;
    backoff_limit = 0;
    template_name = env.metadata.name;
    grace_period = 30;
    service_account_name = er.spec.service_account_name;
    restart_policy = "Never";
    init_containers = releasers;
    containers =
        record {
          name = "environment-provider";
          image = er.spec.image;
          env = variables;
          env_from = [];
          command = [];
          args =
              "-release"
              ∷ ("-name=" <> env.metadata.name)
              ∷ ("-namespace=" <> env.metadata.namespace)
              ∷ ("-environment-request=" <> er.metadata.name)
              ∷ "-provider=environment-provider"
              ∷ [];
        }
        ∷ [];
  }

module _ {W E Time : Type 0} (L : Library E Time) (api : EnvironmentApi W E Time) where
  -- environmentRequest.
  unfoldable pub environment_request :
      Environment Time → M W (Call Time) (Result E (EnvironmentRequest Time))
  unfolding request_owner
  environment_request env =
      let name = request_owner env.metadata.owner_references "" in
      if name ~ ""
      then pure (err (L.errorf "failed to find EnvironmentRequest owner"))
      else ask (api.get_request env.metadata.namespace name)

  abbrev pub provider_of : Resource Time → M W (Call Time) (Result E (Provider Time))
  provider_of r = ask (api.get_provider r.metadata.namespace r.provider_id)

  unfoldable pub request_cluster :
      EnvironmentRequest Time → M W (Call Time) (Result E (Option OpenTelemetry))
  request_cluster er =
      let name = at_key er.metadata.labels label_cluster in
      if name ~ ""
      then pure (ok none)
      else (ask (api.get_cluster er.metadata.namespace name) >>? λ c. pure (ok (some c)))

  -- The container that releases a resource, with the variables added to its provider's.
  pub releaser :
      String
      → Resource Time
      → Provider Time
      → List (String × String)
      → EnvironmentRequest Time
      → Result E Container
  unfolding release_container
  releaser name r provider variables er =
      release_container L r.metadata.name name r.metadata.namespace
        (some (with_env provider variables)) er false

  -- The three containers and then the job, or the first error.
  pub release_result :
      Environment Time
      → EnvironmentRequest Time
      → (iut : Resource Time) (iut_provider : Provider Time)
      → (log_area : Resource Time) (log_area_provider : Provider Time)
      → (space : Resource Time) (space_provider : Provider Time) → List (String × String)
      → Result E JobSpec
  unfolding releaser release_spec
  release_result env er iut iut_provider log_area log_area_provider space space_provider variables =
      and_then (releaser execution_space_releaser_name space space_provider variables er)
        λ space_release.
          and_then (releaser log_area_releaser_name log_area log_area_provider variables er)
            λ log_area_release.
              and_then (releaser iut_releaser_name iut iut_provider variables er) λ iut_release.
                let spec =
                  release_spec env er variables
                    (space_release ∷ log_area_release ∷ iut_release ∷ []) in
                or_else (api.control_job env spec) spec

  unfoldable pub release_job : Environment Time → M W (Call Time) (Result E JobSpec)
  unfolding environment_request request_cluster release_env release_result
  release_job env = environment_request env >>? λ er. get_resource L api env iut_kind >>? λ iut.
      provider_of iut >>? λ iut_provider. get_resource L api env log_area_kind >>? λ log_area.
      provider_of log_area >>? λ log_area_provider.
      get_resource L api env execution_space_kind >>? λ space.
      provider_of space >>? λ space_provider. request_cluster er >>? λ cluster. pure (
        release_result env er iut iut_provider log_area log_area_provider space space_provider
          (release_env er cluster))
