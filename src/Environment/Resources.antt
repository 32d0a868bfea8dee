-- ===== src/Environment/Resources.antt =====
-- internal/controller/environment_controller.go: how an environment takes its resources over
-- (takeOwnership, reconcileEnvironment) and lets them go (releaseProviders).
use etos.Prelude.{Bool, true, false, Option, none, some, String, List, if◌then◌else◌}
use etos.Kube.{Library, condition}
use etos.Kube.Monad.{Result, ok, err, M, ◌>>=◌, ◌>>?◌, pure, ask, tell}
use etos.Controller.{release_finalizer, check_providers}
use etos.Controller.Reasons.{status_active, reason_completed}
use etos.Environment.Types.{
  Environment, Kind, iut_kind, log_area_kind, execution_space_kind, Resource, EnvironmentApi, Call,
  set_and_update,
}

module _ {Time : Type 0} where
  -- The name of the resource that the environment has of a kind.
  abbrev pub resource_name : Environment Time → Kind → String
  resource_name env iut_kind = env.providers.iut
  resource_name env log_area_kind = env.providers.log_area
  resource_name env execution_space_kind = env.providers.execution_space

  abbrev pub with_finalizers : Resource Time → List String → Resource Time
  with_finalizers r fs =
      let metadata = r.metadata in record r { metadata = record metadata { finalizers = fs } }

-- An error, or nothing, as a result.
abbrev pub or_else : {E A : Type 0} → Option E → A → Result E A
or_else none a = ok a
or_else (some e) a = err e

module _ {W E Time : Type 0} (L : Library E Time) (api : EnvironmentApi W E Time) where
  abbrev pub get_resource : Environment Time → Kind → M W (Call Time) (Result E (Resource Time))
  get_resource env kind =
      ask (api.get_resource kind env.metadata.namespace (resource_name env kind))

  -- The finalizer and the update of takeOwnership.
  unfoldable pub own : Kind → Resource Time → M W (Call Time) (Option E)
  own kind r =
      let owned =
        if L.contains_finalizer r.metadata.finalizers release_finalizer
        then r
        else with_finalizers r (L.add_finalizer r.metadata.finalizers release_finalizer) in
      tell (Call.updated_resource kind owned) (api.update_resource kind owned)

  -- What follows SetControllerReference, whose error NotFound is passed over.
  unfoldable pub after_reference :
      Kind → Resource Time → Result E (Resource Time) → M W (Call Time) (Option E)
  unfolding own
  after_reference kind r (ok controlled) = own kind controlled
  after_reference kind r (err e) = if L.is_not_found e then own kind r else pure (some e)

  unfoldable pub take_ownership :
      Environment Time → Kind → Resource Time → M W (Call Time) (Option E)
  unfolding after_reference
  take_ownership env kind r =
      if r.controlled then pure none else after_reference kind r (api.control_resource env r)

  -- One of the three steps of reconcileEnvironment: the provider of the resource.
  unfoldable pub take : Environment Time → Kind → M W (Call Time) (Result E String)
  unfolding take_ownership
  take env kind = get_resource env kind >>? λ r.
      (take_ownership env kind r >>= λ e. pure (or_else e r.provider_id))

  -- What follows the check of the providers.
  unfoldable pub activate :
      Environment Time → Option E → M W (Call Time) (Result E (Environment Time))
  activate env (some e) = pure (err e)
  activate env none =
      set_and_update L api env
        (condition L status_active "True" reason_completed "Actively being used")

  unfoldable pub reconcile_environment :
      Environment Time → M W (Call Time) (Result E (Environment Time))
  unfolding take activate
  reconcile_environment env = take env iut_kind >>? λ iut. take env log_area_kind >>? λ log_area.
      take env execution_space_kind >>? λ space.
      (check_providers L api.get_provider env.metadata.namespace
          (record { iut = iut; execution_space = space; log_area = log_area })
        >>= λ e. activate env e)

  -- One of the three steps of releaseProviders, from the answer for its resource on: the update of a
  -- resource that has the finalizer, or the rest.
  unfoldable pub let_go :
      Kind
      → Result E (Resource Time)
      → M W (Call Time) (Bool × Option E)
      → M W (Call Time) (Bool × Option E)
  let_go kind (err e) rest = if L.is_not_found e then rest else pure (false, some e)
  let_go kind (ok r) rest =
      let removed = L.remove_finalizer r.metadata.finalizers release_finalizer in
      if removed.1
      then (let released = with_finalizers r removed.0 in
          tell (Call.updated_resource kind released) (api.update_resource kind released) >>= λ e.
          pure (true, e))
      else rest

  unfoldable pub release_kind :
      Environment Time
      → Kind
      → M W (Call Time) (Bool × Option E)
      → M W (Call Time) (Bool × Option E)
  unfolding let_go
  release_kind env kind rest = get_resource env kind >>= λ r. let_go kind r rest

  -- Whether a resource was updated, with the error.
  unfoldable pub release_providers : Environment Time → M W (Call Time) (Bool × Option E)
  unfolding release_kind
  release_providers env =
      release_kind env execution_space_kind
        (release_kind env log_area_kind (release_kind env iut_kind (pure (false, none))))
