-- ===== src/Environment/Tests.antt =====
-- The reconciler of environments on a cluster whose release job has succeeded.
use etos.Prelude.{ℕ, ◌≡◌, ◌⊎◌, refl, true, false, Option, none, some, String, [], ◌∷◌, arith}
use etos.Prelude.Int.{pos}
use etos.Kube.Example.{library, library-IsLawful}
use etos.Kube.Monad.{Sys, ok, err}
use etos.Jobs.Types.{JobStatus}
use etos.Jobs.{delete, status, classify, sort_jobs, is_job_finished}
use etos.Jobs.Results.{result}
use etos.Controller.{is_status_reason}
use etos.Environment.Types.{
  Environment, iut_kind, log_area_kind, execution_space_kind, EnvironmentApi, Call, update_status,
}
use etos.Environment.Resources.{release_providers}
use etos.Environment.Releasing.{Stopped, AllFree, is_free, answer, asked, release_providers_lem}
use etos.Environment.Deadline.{exceeded, TimedOut, check_deadline_lem}
use etos.Environment.Completes.{completes}
use etos.Environment.Completion.{asked_at, reconcile-completes}
use etos.Environment.TimeOut.{check_deadline}
use etos.Environment.{manager, reconcile}

abbrev environment : Option ℕ → Environment ℕ
environment deletion = record {
  metadata = record {
    name = "environment";
    namespace = "etos";
    labels = [];
    annotations = [];
    finalizers = "etos.eiffel-community.github.io/release" ∷ [];
    owner_references = [];
    deletion_timestamp = deletion;
  };
  providers = record { iut = "iut"; execution_space = "space"; log_area = "log-area" };
  deadline = pos 5;
  conditions =
      (record {
        kind = "Active";
        status = "True";
        reason = "Completed";
        message = "";
        last_transition_time = 1;
      })
      ∷ [];
  completion_time = none;
}

-- The world is the clock. The resources are gone.
abbrev api : EnvironmentApi ℕ String ℕ
api = record {
  now = λ w. (w, w);
  get = λ _ _ w. (ok (environment none), w);
  update = λ env w. (ok env, w);
  update_status = λ env w. (ok env, w);
  delete = λ _ w. (none, w);
  get_resource = λ _ _ _ w. (err "not found", w);
  update_resource = λ _ _ w. (none, w);
  get_request = λ _ _ w. (err "not found", w);
  get_provider = λ _ _ w. (err "not found", w);
  get_cluster = λ _ _ w. (err "not found", w);
  jobs = record {
    list_jobs = λ _ _ _ w. (
      ok (
          record {
            name = "environment";
            namespace = "etos";
            deletion_timestamp = none;
            conditions = (record { kind = "Complete"; status = "True" }) ∷ [];
          }
          ∷ []),
      w,
    );
    list_pods = λ _ _ w. (ok [], w);
    create_job = λ _ w. (none, w);
    delete_job = λ _ w. (none, w);
    parse_result = λ _. none;
  };
  control_resource = λ _ r. ok r;
  control_job = λ _ _. none;
  unix = λ z. elim z [ pos n ↦ n | _ ↦ 0 ];
  time_text = λ _. "";
}

abbrev at : ℕ → Sys ℕ (Call ℕ)
at time = record { server = time; calls = [] }

one_completed : completes (reconcile library api (environment (some 3)) (at 7)).1.calls ≡ 1
unfolding reconcile is_status_reason status classify sort_jobs is_job_finished release_providers
    result update_status delete
one_completed = refl

reconcile-completes_example :
    ((status library api.jobs (manager (environment (some 3))) (at 7)).0.0
      ≡ ok JobStatus.successful)
    × AllFree library api
        (environment (some 3))
        (asked_at library api (environment (some 3)) (at 7))
reconcile-completes_example =
    reconcile-completes library api (environment (some 3)) (at 7) refl
      (omega (arith, one_completed))

check_deadline_lem_example :
    ((exceeded library api (environment none) (at 7) ≡ true)
      × TimedOut library api [] (check_deadline library api (environment none) (at 7)).1.calls)
    ⊎ ((exceeded library api (environment none) (at 7) ≡ false)
        × ((check_deadline library api (environment none) (at 7)).1.calls ≡ []))
check_deadline_lem_example =
    check_deadline_lem library api library-IsLawful (environment none) (at 7)

release_providers_lem_example :
    let env = environment (some 3) in
    let s = at 7 in
    let s' = asked library api env execution_space_kind s in
    let s'' = asked library api env log_area_kind s' in
    let out = release_providers library api env s in
    ((is_free library (answer library api env execution_space_kind s) ≡ false)
      × Stopped execution_space_kind s.calls out)
    ⊎ (((is_free library (answer library api env execution_space_kind s) ≡ true)
          × (is_free library (answer library api env log_area_kind s') ≡ false)
          × Stopped log_area_kind s.calls out)
        ⊎ (((is_free library (answer library api env execution_space_kind s) ≡ true)
              × (is_free library (answer library api env log_area_kind s') ≡ true)
              × (is_free library (answer library api env iut_kind s'') ≡ false)
              × Stopped iut_kind s.calls out)
            ⊎ (AllFree library api env s × (out.0 ≡ (false, none)) × (out.1.calls ≡ s.calls))))
release_providers_lem_example = release_providers_lem library api (environment (some 3)) (at 7)
