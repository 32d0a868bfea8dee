-- ===== src/EnvironmentRequest/Tests.antt =====
-- The reconciler on a small cluster, where every call succeeds.
use etos.Prelude.{
  ℕ, ◌+◌, ◌≤◌, ◌≡◌, ◌⊎◌, refl, true, false, length, none, some, String, List, [], ◌∷◌, arith, ◌~◌,
}
use etos.Kube.{ObjectMeta, OwnerReference}
use etos.Kube.Example.{library, library-IsLawful}
use etos.Kube.Monad.{Sys, Result, ok, err}
use etos.Jobs.{create, status, classify, sort_jobs}
use etos.Api.{EnvironmentRequest, Provider}
use etos.Api.Values.{get}
use etos.Controller.{
  done, requeue, requeue_after, is_status_reason, check_providers, release_finalizer,
}
use etos.Controller.Reasons.{reason_starting, reason_failed}
use etos.EnvironmentRequest.Types.{iuts, EnvironmentRequestApi, Call, deleted, set_and_update}
use etos.EnvironmentRequest.ProviderJob.{env_var_list_from, environment_provider_job}
use etos.EnvironmentRequest.Release.{
  delete_unowned, delete_kind, finalize, release, reconcile_deletion,
}
use etos.EnvironmentRequest.{reconcile, start_provider, reconcile_request}
use etos.EnvironmentRequest.Example.{object, request}
use etos.EnvironmentRequest.Quiet.{jobs_created}
use etos.EnvironmentRequest.Starting.{
  MayStart, listed_jobs, checked, reconcile-created, reconcile-created_once,
}
use etos.EnvironmentRequest.Failing.{Recorded, start_provider-Recorded}
use etos.EnvironmentRequest.Deleting.{delete_kind-calls}
use etos.EnvironmentRequest.Deletion.{NothingLeft, after_spaces, release_lem}
use etos.EnvironmentRequest.Updates.{updates, StillHeld, Freed, reconcile_deletion-Freed}
use etos.EnvironmentRequest.Entry.{IsDue, reconcile_request-created, reconcile_request-completed}
use etos.EnvironmentRequest.Completion.{Cleaned, others, delete_unowned-Cleaned}

abbrev provider : Provider ℕ
provider = record {
  name = "provider";
  image = "provider-image";
  env = [];
  env_from = [];
  conditions =
      (record {
        kind = "Available";
        status = "True";
        reason = "";
        message = "";
        last_transition_time = 1;
      })
      ∷ [];
}

-- The world is the list of the resources of every kind that are listed.
abbrev api : EnvironmentRequestApi (List (ObjectMeta ℕ)) String ℕ
api = record {
  now = λ w. (7, w);
  get = λ _ _ w. (ok (request "Pending" none), w);
  update = λ er w. (ok er, w);
  update_status = λ er w. (ok er, w);
  get_provider = λ _ _ w. (ok provider, w);
  get_cluster = λ _ _ w. (err "not found", w);
  vars = record { get_secret = λ _ _ w. (ok [], w); get_config_map = λ _ _ w. (ok [], w) };
  list = λ _ _ _ _ w. (ok w, w);
  delete = λ _ _ w. (none, w);
  jobs = record {
    list_jobs = λ _ _ _ w. (ok [], w);
    list_pods = λ _ _ w. (ok [], w);
    create_job = λ _ w. (none, w);
    delete_job = λ _ w. (none, w);
    parse_result = λ _. none;
  };
  set_controller_reference = λ _ _. none;
}

abbrev cluster : List (ObjectMeta ℕ) → Sys (List (ObjectMeta ℕ)) (Call ℕ)
cluster objects = record { server = objects; calls = [] }

abbrev owned : List OwnerReference
owned = (record { kind = "Environment"; name = "environment" }) ∷ []

abbrev two : List (ObjectMeta ℕ)
two = object "kept" owned none ∷ object "gone" [] none ∷ []

abbrev pending_request : EnvironmentRequest ℕ
pending_request = request "Pending" none

one_created : jobs_created (reconcile library api pending_request (cluster [])).1.calls ≡ 1
unfolding reconcile create environment_provider_job env_var_list_from check_providers status
    classify sort_jobs is_status_reason get set_and_update
one_created = refl

reconcile-created_once_example :
    jobs_created (reconcile library api pending_request (cluster [])).1.calls ≤ 0 + 1
reconcile-created_once_example = reconcile-created_once library api pending_request (cluster [])

reconcile-created_example :
    MayStart library pending_request
    × (listed_jobs library api pending_request (checked library api pending_request (cluster []))
        ≡ ok [])
    × (("Pending" ~ reason_failed) ≡ false)
reconcile-created_example =
    reconcile-created library api pending_request (cluster []) (omega (arith, one_created))

start_provider-Recorded_example :
    Recorded library reason_starting
      (start_provider library api pending_request (cluster [])).1.calls
unfolding create environment_provider_job is_status_reason get
start_provider-Recorded_example =
    start_provider-Recorded library api library-IsLawful pending_request (cluster []) refl refl refl

delete_kind-calls_example :
    ((delete_kind library api pending_request iuts (cluster two)).1.calls
      ≡ deleted iuts "gone" ∷ deleted iuts "kept" ∷ [])
    × ((delete_kind library api pending_request iuts (cluster two)).0.0 ≡ 2)
delete_kind-calls_example =
    delete_kind-calls library api pending_request iuts two (cluster two) refl

release_lem_example :
    (NothingLeft library api pending_request (cluster two)
      × (release library api pending_request (cluster two)
          ≡ finalize library api pending_request
              (after_spaces library api pending_request (cluster two))))
    ⊎ ((NothingLeft library api pending_request (cluster two) → ⊥)
        × ((release library api pending_request (cluster two)
              ≡ ((requeue, none), after_spaces library api pending_request (cluster two)))
            ⊎ (release library api pending_request (cluster two) ≡ (
              (requeue_after 5, none),
              after_spaces library api pending_request (cluster two),
            ))))
release_lem_example = release_lem library api library-IsLawful pending_request (cluster two)

reconcile_deletion-Freed_example :
    StillHeld library api pending_request
      (cluster [])
      (reconcile_deletion library api pending_request (cluster [])).1.calls
    ⊎ Freed library api pending_request
        (cluster [])
        (reconcile_deletion library api pending_request (cluster [])).1.calls
reconcile_deletion-Freed_example =
    reconcile_deletion-Freed library api library-IsLawful pending_request (cluster [])

-- With nothing left the request is let go.
one_freed :
    length (updates (reconcile_deletion library api pending_request (cluster [])).1.calls) ≡ 1
unfolding reconcile_deletion is_status_reason
one_freed = refl

delete_unowned-Cleaned_example :
    Cleaned iuts two
      (delete_unowned library api iuts two (cluster two)).0
      []
      (delete_unowned library api iuts two (cluster two)).1.calls
delete_unowned-Cleaned_example = delete_unowned-Cleaned library api iuts two (cluster two)

one_requested : jobs_created (reconcile_request library api "ns" "request" (cluster [])).1.calls ≡ 1
unfolding reconcile_request reconcile create environment_provider_job env_var_list_from
    check_providers status classify sort_jobs is_status_reason get set_and_update
one_requested = refl

reconcile_request-created_example :
    (er : EnvironmentRequest ℕ) × (◌≡◌ {A = Result String (EnvironmentRequest ℕ)}
      (ok pending_request)
      (ok er))
    × (jobs_created (reconcile_request library api "ns" "request" (cluster [])).1.calls ≡ 0 + 1)
    × (library.contains_finalizer er.metadata.finalizers release_finalizer ≡ true)
    × IsDue library api er (cluster [])
reconcile_request-created_example =
    reconcile_request-created library api "ns" "request" (cluster []) (omega (arith, one_requested))

-- The API server that returns a completed request.
abbrev completed_api : EnvironmentRequestApi (List (ObjectMeta ℕ)) String ℕ
completed_api = record api { get = λ _ _ w. (ok (request "Completed" (some 5)), w) }

reconcile_request-completed_example :
    ((reconcile_request library completed_api "ns" "request" (cluster two)).0 ≡ (done, none))
    × (others (reconcile_request library completed_api "ns" "request" (cluster two)).1.calls ≡ [])
reconcile_request-completed_example =
    reconcile_request-completed library completed_api "ns" "request" (request "Completed" (some 5))
      5 (cluster two) refl refl refl
