-- ===== src/EnvironmentRequest/Quiet.antt =====
-- The parts of the reconciler that create no job.
use etos.Prelude.{ℕ, suc, ◌≡◌, refl, Option, String, List, [], ◌∷◌, arith}
use etos.Kube.{Condition, Library}
use etos.Kube.Monad.{Sys, >>?-IsQuiet, ask}
use etos.Api.{EnvironmentRequest, OpenTelemetry}
use etos.Api.Values.{Var, VarApi, get}
use etos.EnvironmentRequest.Types.{
  EnvironmentRequestApi, Call, updated, updated_status, deleted, created_job, deleted_job,
  set_and_update, end_and_update,
}
use etos.EnvironmentRequest.ProviderJob.{get_cluster, env_var_list_from, environment_provider_job}

-- How many jobs were created.
abbrev pub jobs_created : {Time : Type 0} → List (Call Time) → ℕ
jobs_created [] = 0
jobs_created (created_job spec ∷ calls) = suc (jobs_created calls)
jobs_created (updated er ∷ calls) = jobs_created calls
jobs_created (updated_status er ∷ calls) = jobs_created calls
jobs_created (deleted kind name ∷ calls) = jobs_created calls
jobs_created (deleted_job name ∷ calls) = jobs_created calls

get-calls :
    {W C E Time : Type 0} (L : Library E Time) (api : VarApi W E) (v : Var) (namespace : String)
    (s : Sys W C)
    → (get L api v namespace s).1.calls ≡ s.calls
unfolding get
get-calls L api v namespace s = ground arith

module _ {W E Time : Type 0} (L : Library E Time) (api : EnvironmentRequestApi W E Time) where
  get_cluster-calls :
      (er : EnvironmentRequest Time) (s : Sys W (Call Time))
      → (get_cluster L api er s).1.calls ≡ s.calls
  unfolding get_cluster
  get_cluster-calls er s = ground arith

  env_var_list_from-calls :
      (er : EnvironmentRequest Time) (cluster : Option OpenTelemetry) (s : Sys W (Call Time))
      → (env_var_list_from L api er cluster s).1.calls ≡ s.calls
  unfolding env_var_list_from
  env_var_list_from-calls er cluster s =
      let s1 = (get L api.vars er.spec.config.encryption_key er.metadata.namespace s).1 in
      let s2 =
        (get L api.vars er.spec.config.etos_message_bus.password er.metadata.namespace s1).1 in
      ground (
        arith,
        get-calls L api.vars er.spec.config.encryption_key er.metadata.namespace s,
        get-calls L api.vars er.spec.config.etos_message_bus.password er.metadata.namespace s1,
        get-calls L api.vars er.spec.config.eiffel_message_bus.password er.metadata.namespace s2,
      )

  pub environment_provider_job-calls :
      (er : EnvironmentRequest Time) (s : Sys W (Call Time))
      → (environment_provider_job L api er s).1.calls ≡ s.calls
  unfolding environment_provider_job
  environment_provider_job-calls er =
      >>?-IsQuiet (get_cluster L api er) _ (get_cluster-calls er) λ cluster.
        >>?-IsQuiet (env_var_list_from L api er cluster) _ (env_var_list_from-calls er cluster)
          λ env.
            >>?-IsQuiet (ask (api.get_provider er.metadata.namespace er.spec.providers.iut)) _
              (λ s. refl)
              λ iut.
                >>?-IsQuiet
                  (ask (api.get_provider er.metadata.namespace er.spec.providers.log_area)) _
                  (λ s. refl)
                  λ log_area.
                    >>?-IsQuiet
                      (ask
                        (api.get_provider er.metadata.namespace er.spec.providers.execution_space))
                      _ (λ s. refl) λ execution_space s. refl

  pub set_and_update-created :
      (er : EnvironmentRequest Time) (c : Condition Time) (s : Sys W (Call Time))
      → jobs_created (set_and_update L api er c s).1.calls ≡ jobs_created s.calls
  unfolding set_and_update
  set_and_update-created er c s = ground arith

  pub end_and_update-created :
      (er : EnvironmentRequest Time) (c : Condition Time) (s : Sys W (Call Time))
      → jobs_created (end_and_update L api er c s).1.calls ≡ jobs_created s.calls
  unfolding end_and_update
  end_and_update-created er c s = ground arith
