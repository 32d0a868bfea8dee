-- ===== src/Resource/Tests.antt =====
-- The reconcilers of resources on a small cluster, where every call succeeds.
use etos.Prelude.{ℕ, ◌≡◌, refl, false, none, some, String, List, [], ◌∷◌, arith}
use etos.Kube.{is_zero}
use etos.Kube.Example.{library, library-IsLawful}
use etos.Kube.Monad.{Sys, ok, err}
use etos.Kube.Pod.{Job}
use etos.Jobs.Types.{JobStatus}
use etos.Jobs.{create, status, classify, sort_jobs, is_job_finished}
use etos.Jobs.Results.{result}
use etos.EnvironmentRequest.Example.{object, request}
use etos.TestRun.Example.{condition_of, provider}
use etos.Environment.Types.{iut_kind, log_area_kind}
use etos.Resource.Types.{Managed, ResourceApi, Call}
use etos.Resource.Release.{release_job}
use etos.Resource.{reconcile_existing}
use etos.Resource.Log.{jobs_created, completes, freed, answer}
use etos.Resource.Life.{
  reconcile_existing-created, reconcile_existing-completes, reconcile_existing-freed,
}

abbrev job : Job ℕ
job = record {
  name = "job";
  namespace = "etos";
  deletion_timestamp = none;
  conditions = (record { kind = "Complete"; status = "True" }) ∷ [];
}

-- The world is the list of the jobs.
abbrev api : ResourceApi (List (Job ℕ)) String ℕ
api = record {
  now = λ w. (7, w);
  get = λ _ _ w. (err "not found", w);
  update = λ r w. (ok r, w);
  update_status = λ r w. (ok r, w);
  get_provider = λ _ _ w. (ok provider, w);
  get_request = λ _ _ w. (ok (request "Pending" none), w);
  jobs = record {
    list_jobs = λ _ _ _ w. (ok w, w);
    list_pods = λ _ _ w. (ok [], w);
    create_job = λ _ w. (none, w);
    delete_job = λ _ w. (none, w);
    parse_result = λ _. none;
  };
  control_job = λ _ _. none;
}

-- A resource that is being deleted.
abbrev resource : Managed ℕ
resource = record {
  metadata = object "iut" [] (some 5);
  environment_request = "request";
  provider_id = "provider";
  conditions = condition_of "Active" "Pending" ∷ [];
  completion_time = none;
}

abbrev with_jobs : List (Job ℕ) → Sys (List (Job ℕ)) (Call ℕ)
with_jobs jobs = record { server = jobs; calls = [] }

one_created :
    jobs_created (reconcile_existing library api iut_kind resource (with_jobs [])).1.calls ≡ 1
unfolding reconcile_existing etos.Controller.owned_by_environment status classify sort_jobs create
    release_job
one_created = refl

reconcile_existing-created_example :
    (jobs_created (reconcile_existing library api iut_kind resource (with_jobs [])).1.calls ≡ 1)
    × (is_zero resource.metadata.deletion_timestamp ≡ false)
    × (answer library api iut_kind resource (with_jobs []) ≡ ok JobStatus.none)
unfolding etos.Controller.owned_by_environment
reconcile_existing-created_example =
    reconcile_existing-created library api library-IsLawful iut_kind resource (with_jobs []) refl
      refl (omega (arith, one_created))

one_completed :
    completes (reconcile_existing library api log_area_kind resource (with_jobs (job ∷ []))).1.calls
    ≡ 1
unfolding reconcile_existing etos.Controller.owned_by_environment status classify sort_jobs
    is_job_finished result
one_completed = refl

reconcile_existing-completes_example :
    answer library api log_area_kind resource (with_jobs (job ∷ [])) ≡ ok JobStatus.successful
unfolding etos.Controller.owned_by_environment
reconcile_existing-completes_example =
    reconcile_existing-completes library api library-IsLawful log_area_kind resource
      (with_jobs (job ∷ [])) refl refl (omega (arith, one_completed))

reconcile_existing-freed_example :
    freed library (reconcile_existing library api iut_kind resource (with_jobs [])).1.calls ≡ 0
unfolding etos.Controller.owned_by_environment
reconcile_existing-freed_example =
    reconcile_existing-freed library api library-IsLawful iut_kind resource (with_jobs []) refl refl
