-- ===== src/Releasers.antt =====
-- internal/release: the jobs and the containers that release the resources of an environment.
use etos.Prelude.{Bool, Option, none, some, String, ◌<>◌, List, [], ◌∷◌, ◌++◌, if◌then◌else◌, ◌~◌}
use etos.Kube.{Library, ObjectMeta, at_key}
use etos.Kube.Monad.{and_then, Result, ok, err}
use etos.Kube.Pod.{Container, JobSpec}
use etos.Api.{EnvironmentRequest, Provider}

abbrev pub iut_releaser_name : String
iut_releaser_name = "iut-releaser"

abbrev pub log_area_releaser_name : String
log_area_releaser_name = "log-area-releaser"

abbrev pub execution_space_releaser_name : String
execution_space_releaser_name = "execution-space-releaser"

module _ {E Time : Type 0} (L : Library E Time) where
  -- The name of the resource, of the container, and of the namespace.
  unfoldable pub release_container :
      String
      → String
      → String
      → Option (Provider Time)
      → EnvironmentRequest Time
      → Bool
      → Result E Container
  release_container name container_name namespace none er no_delete =
      err (L.errorf "provider is nil")
  release_container name container_name namespace (some provider) er no_delete = ok (record {
    name = container_name;
    image = provider.image;
    env = provider.env;
    env_from = provider.env_from;
    command = [];
    args =
        ("-release"
          ∷ ("-namespace=" <> namespace)
          ∷ ("-name=" <> name)
          ∷ ("-environment-request=" <> er.metadata.name)
          ∷ ("-provider=" <> provider.name)
          ∷ [])
        ++ (if no_delete then "-nodelete" ∷ [] else []);
  })

module _ {Time : Type 0} where
  unfoldable pub release_job :
      String → String → String → EnvironmentRequest Time → List Container → JobSpec
  release_job job_name name namespace er containers =
      let cluster = at_key er.metadata.labels "etos.eiffel-community.github.io/cluster" in
      record {
        name = job_name;
        generate_name = "";
        namespace = namespace;
        labels =
            (("app.kubernetes.io/name", name)
              ∷ ("app.kubernetes.io/part-of", "etos")
              ∷ ("etos.eiffel-community.github.io/environment-request", er.spec.name)
              ∷ ("etos.eiffel-community.github.io/environment-request-id", er.spec.id)
              ∷ [])
            ++ ((if cluster ~ ""
                  then []
                  else ("etos.eiffel-community.github.io/cluster", cluster) ∷ [])
                ++ (if er.spec.identifier ~ ""
                    then []
                    else ("etos.eiffel-community.github.io/id", er.spec.identifier) ∷ []));
        ttl_seconds_after_finished = some 300;
        backoff_limit = 0;
        template_name = job_name;
        grace_period = 30;
        service_account_name = er.spec.service_account_name;
        restart_policy = "Never";
        init_containers = [];
        containers = containers;
      }

module _ {E Time : Type 0} (L : Library E Time) where
  unfoldable pub iut_releaser_container :
      ObjectMeta Time → Option (Provider Time) → EnvironmentRequest Time → Bool → Result E Container
  unfolding release_container
  iut_releaser_container iut provider er skip =
      release_container L iut.name iut_releaser_name iut.namespace provider er skip

  unfoldable pub log_area_releaser_container :
      ObjectMeta Time → Option (Provider Time) → EnvironmentRequest Time → Bool → Result E Container
  unfolding release_container
  log_area_releaser_container log_area provider er skip =
      release_container L log_area.name log_area_releaser_name log_area.namespace provider er skip

  unfoldable pub execution_space_releaser_container :
      ObjectMeta Time → Option (Provider Time) → EnvironmentRequest Time → Bool → Result E Container
  unfolding release_container
  execution_space_releaser_container space provider er skip =
      release_container L space.name execution_space_releaser_name space.namespace provider er skip

  -- The job of a container, if there is one.
  abbrev pub releaser :
      ObjectMeta Time → String → EnvironmentRequest Time → Result E Container → Result E JobSpec
  releaser metadata name er container =
      and_then container λ c. ok (release_job metadata.name name metadata.namespace er (c ∷ []))

  unfoldable pub iut_releaser :
      ObjectMeta Time → EnvironmentRequest Time → Option (Provider Time) → Bool → Result E JobSpec
  unfolding iut_releaser_container
  iut_releaser iut er provider skip =
      releaser iut iut_releaser_name er (iut_releaser_container iut provider er skip)

  unfoldable pub log_area_releaser :
      ObjectMeta Time → EnvironmentRequest Time → Option (Provider Time) → Bool → Result E JobSpec
  unfolding log_area_releaser_container
  log_area_releaser log_area er provider skip =
      releaser log_area log_area_releaser_name er
        (log_area_releaser_container log_area provider er skip)

  unfoldable pub execution_space_releaser :
      ObjectMeta Time → EnvironmentRequest Time → Option (Provider Time) → Bool → Result E JobSpec
  unfolding execution_space_releaser_container
  execution_space_releaser space er provider skip =
      releaser space execution_space_releaser_name er
        (execution_space_releaser_container space provider er skip)
