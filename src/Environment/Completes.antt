-- ===== src/Environment/Completes.antt =====
-- The status updates with a completion time, and the parts of the reconciler that send none.
use etos.Prelude.{ℕ, ◌+◌, ◌<◌, ◌≡◌, refl, ◌∙◌, ap, Option, none, some, List, [], ◌∷◌, arith}
use etos.Kube.{Condition, Library}
use etos.Kube.Monad.{Sys, Keeps, >>?-Keeps}
use etos.Jobs.{create}
use etos.Api.{Providers, EnvironmentRequest}
use etos.Controller.{check_providers}
use etos.Controller.Quiet.{check_providers-calls}
use etos.Environment.Types.{
  Environment, Kind, iut_kind, log_area_kind, execution_space_kind, Resource, EnvironmentApi, Call,
  updated, updated_status, deleted, updated_resource, created_job, deleted_job, job_log,
  update_status, set_and_update,
}
use etos.Environment.Resources.{
  get_resource, own, after_reference, take_ownership, take, activate, reconcile_environment,
}
use etos.Environment.ReleaseJob.{environment_request, provider_of, request_cluster, release_job}

abbrev pub completing : {Time : Type 0} → Option Time → ℕ
completing none = 0
completing (some t) = 1

-- How many status updates with a completion time were sent.
abbrev pub completes : {Time : Type 0} → List (Call Time) → ℕ
completes [] = 0
completes (updated_status env ∷ calls) = completing env.completion_time + completes calls
completes (updated env ∷ calls) = completes calls
completes (deleted env ∷ calls) = completes calls
completes (updated_resource kind r ∷ calls) = completes calls
completes (created_job spec ∷ calls) = completes calls
completes (deleted_job name ∷ calls) = completes calls

pub same_completes : {a b : ℕ} {X : Type 0} → a ≡ b → b < a → X
same_completes e more = absurd (omega arith)

module _ {W E Time : Type 0} (L : Library E Time) (api : EnvironmentApi W E Time) where
  pub set_and_update-completes :
      (env : Environment Time) (c : Condition Time) (s : Sys W (Call Time))
      → env.completion_time ≡ none
      → completes (set_and_update L api env c s).1.calls ≡ completes s.calls
  unfolding set_and_update update_status
  set_and_update-completes env c s running = ground arith

  pub take_ownership-completes :
      (env : Environment Time) (kind : Kind) (r : Resource Time)
      → Keeps completes (take_ownership L api env kind r)
  unfolding take_ownership after_reference own
  take_ownership-completes env kind r s = ground arith

  pub take-completes :
      (env : Environment Time) (kind : Kind) → Keeps completes (take L api env kind)
  unfolding take
  take-completes env kind =
      >>?-Keeps completes (get_resource L api env kind) _ (λ s. refl)
        λ r s. take_ownership-completes env kind r s

  pub activate-completes :
      (env : Environment Time) (e : Option E) (s : Sys W (Call Time))
      → env.completion_time ≡ none
      → completes (activate L api env e s).1.calls ≡ completes s.calls
  unfolding activate
  activate-completes env none s running = set_and_update-completes env _ s running
  activate-completes env (some e) s running = refl

  pub reconcile_environment-completes :
      (env : Environment Time)
      → env.completion_time ≡ none
      → Keeps completes (reconcile_environment L api env)
  unfolding reconcile_environment
  reconcile_environment-completes env running =
      >>?-Keeps completes (take L api env iut_kind) _ (take-completes env iut_kind) λ iut.
        >>?-Keeps completes (take L api env log_area_kind) _ (take-completes env log_area_kind)
          λ log_area.
            >>?-Keeps completes (take L api env execution_space_kind) _
              (take-completes env execution_space_kind)
              λ space s.
                let providers : Providers = record {
                  iut = iut;
                  execution_space = space;
                  log_area = log_area;
                } in
                let checked =
                  check_providers L api.get_provider env.metadata.namespace providers s in
                activate-completes env checked.0 checked.1 running
                ∙ ap completes
                    (check_providers-calls L api.get_provider env.metadata.namespace providers s)

  pub environment_request-completes :
      (env : Environment Time) → Keeps completes (environment_request L api env)
  unfolding environment_request
  environment_request-completes env s = ground arith

  pub request_cluster-completes :
      (er : EnvironmentRequest Time) → Keeps completes (request_cluster L api er)
  unfolding request_cluster
  request_cluster-completes er s = ground arith

  pub release_job-completes : (env : Environment Time) → Keeps completes (release_job L api env)
  unfolding release_job
  release_job-completes env =
      >>?-Keeps completes (environment_request L api env) _ (environment_request-completes env)
        λ er.
          >>?-Keeps completes (get_resource L api env iut_kind) _ (λ s. refl)
            λ iut.
              >>?-Keeps completes (provider_of L api iut) _ (λ s. refl)
                λ iut_provider.
                  >>?-Keeps completes (get_resource L api env log_area_kind) _ (λ s. refl)
                    λ log_area.
                      >>?-Keeps completes (provider_of L api log_area) _ (λ s. refl)
                        λ log_area_provider.
                          >>?-Keeps completes (get_resource L api env execution_space_kind) _
                            (λ s. refl)
                            λ space.
                              >>?-Keeps completes (provider_of L api space) _ (λ s. refl)
                                λ space_provider.
                                  >>?-Keeps completes (request_cluster L api er) _
                                    (request_cluster-completes er) λ cluster s. refl

  pub create-completes :
      (env : Environment Time) → Keeps completes (create L api.jobs job_log (release_job L api env))
  unfolding create
  create-completes env s = ground (arith, release_job-completes env s)
