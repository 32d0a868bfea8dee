-- ===== src/EnvironmentRequest/Starting.antt =====
-- When the reconciler creates the provider job of a request.
use etos.Prelude.{
  ℕ, ◌+◌, ◌≤◌, ◌<◌, ◌≡◌, refl, sym, ◌∙◌, ap, true, false, Option, none, some, List, [], ◌∷◌, arith,
  inl, inr, Bool-cases, ◌~◌,
}
use etos.Kube.{Condition, Library, condition, is_zero}
use etos.Kube.Monad.{Sys, Result, ok, err}
use etos.Kube.Pod.{Job}
use etos.Jobs.Types.{JobStatus}
use etos.Jobs.{JobManager, create, status, new_job}
use etos.Jobs.Results.Quiet.{result-calls}
use etos.Jobs.Sorted.{status_lem, answer}
use etos.Api.{EnvironmentRequest}
use etos.Controller.{is_status_reason, check_providers}
use etos.Controller.Quiet.{check_providers-calls}
use etos.Controller.Reasons.{status_ready, reason_starting, reason_failed}
use etos.EnvironmentRequest.Types.{EnvironmentRequestApi, Call, job_log, update_status}
use etos.EnvironmentRequest.ProviderJob.{environment_provider_job}
use etos.EnvironmentRequest.Quiet.{
  jobs_created, environment_provider_job-calls, set_and_update-created, end_and_update-created,
}
use etos.EnvironmentRequest.{
  owner_key, manager, provider_names, after_create, start_provider, follow_provider, after_status,
  reconcile_environment_provider, after_check, request_providers, check_and_follow, after_find,
  reconcile,
}

-- What a request must be for a job to be created for it.
pub record MayStart {E Time : Type 0} (L : Library E Time) (er : EnvironmentRequest Time)
    : Type 0 where
  pub not_deleted : is_zero er.metadata.deletion_timestamp ≡ true
  pub not_starting : is_status_reason L er.conditions status_ready reason_starting ≡ false

-- The condition Ready is there, and its reason is not Failed.
abbrev pub HasNotFailed : {Time : Type 0} → Option (Condition Time) → Type 0
HasNotFailed none = ⊥
HasNotFailed (some c) = (c.reason ~ reason_failed) ≡ false

none_created : {a b : ℕ} {X : Type 0} → a ≡ b → (a ≤ b + 1) × (b < a → X)
none_created e = (omega arith, λ more. absurd (omega arith))

-- Only an empty list of jobs has the status none.
expected-none :
    {E Time : Type 0} (e : E) (r : Result E (List (Job Time)))
    → answer e r ≡ ok JobStatus.none
    → r ≡ ok []
expected-none e (err x) h = cc
expected-none e (ok []) h = refl
expected-none e (ok (job ∷ jobs)) h = absurd (ground arith)

module _ {W E Time : Type 0} (L : Library E Time) (api : EnvironmentRequestApi W E Time) where
  create-created :
      (er : EnvironmentRequest Time) (s : Sys W (Call Time))
      → jobs_created (create L api.jobs job_log (environment_provider_job L api er) s).1.calls
        ≤ jobs_created s.calls + 1
  unfolding create
  create-created er s = ground (arith, environment_provider_job-calls L api er s)

  after_create-created :
      (er : EnvironmentRequest Time) (e : Option E) (s : Sys W (Call Time))
      → jobs_created (after_create L api er e s).1.calls ≡ jobs_created s.calls
  unfolding after_create
  after_create-created er none s = set_and_update-created L api er _ s
  after_create-created er (some e) s = ground (
    arith,
    set_and_update-created L api er
        (condition L status_ready "False" reason_failed (L.error_text e)) s,
  )

  start_provider-created :
      (er : EnvironmentRequest Time) (s : Sys W (Call Time))
      → (jobs_created (start_provider L api er s).1.calls ≤ jobs_created s.calls + 1)
        × (jobs_created s.calls < jobs_created (start_provider L api er s).1.calls → MayStart L er)
  unfolding start_provider
  start_provider-created er s =
      let made = create L api.jobs job_log (environment_provider_job L api er) s in
      let after = after_create-created er made.0 made.1 in
      let once = create-created er s in
      (
        ground (arith, after, once),
        λ more. record { not_deleted = ground arith; not_starting = ground arith },
      )

  -- Any other status of the jobs creates none.
  follow_provider-created :
      (js : JobStatus) (j : JobManager Time) (er : EnvironmentRequest Time) (s : Sys W (Call Time))
      → (jobs_created (follow_provider L api js j er s).1.calls ≤ jobs_created s.calls + 1)
        × (jobs_created s.calls < jobs_created (follow_provider L api js j er s).1.calls
            → MayStart L er × (js ≡ JobStatus.none))
  unfolding follow_provider
  follow_provider-created JobStatus.failed j er s = none_created (
      end_and_update-created L api er _ _
      ∙ ap jobs_created (result-calls L api.jobs j "environment-provider" provider_names s))
  follow_provider-created JobStatus.successful j er s = none_created (
      end_and_update-created L api er _ _
      ∙ ap jobs_created (result-calls L api.jobs j "environment-provider" provider_names s))
  follow_provider-created JobStatus.active j er s =
      none_created (set_and_update-created L api er _ s)
  follow_provider-created JobStatus.none j er s =
      let (once, may) = start_provider-created er s in (once, λ more. (may more, refl))

  -- The jobs that the API server lists for a request.
  abbrev pub listed_jobs : EnvironmentRequest Time → Sys W (Call Time) → Result E (List (Job Time))
  listed_jobs er s =
      (api.jobs.list_jobs er.metadata.namespace owner_key er.metadata.name s.server).0

  after_status-created :
      (er : EnvironmentRequest Time) (r : Result E JobStatus) (j : JobManager Time)
      (s : Sys W (Call Time))
      → (jobs_created (after_status L api er r j s).1.calls ≤ jobs_created s.calls + 1)
        × (jobs_created s.calls < jobs_created (after_status L api er r j s).1.calls
            → MayStart L er × (r ≡ ok JobStatus.none))
  unfolding after_status
  after_status-created er (err e) j s = none_created refl
  after_status-created er (ok js) j s =
      let (once, may) = follow_provider-created js j er s in
      (once, λ more. ((may more).0, ap ok (may more).1))

  reconcile_environment_provider-created :
      (er : EnvironmentRequest Time) (s : Sys W (Call Time))
      → (jobs_created (reconcile_environment_provider L api er s).1.calls
          ≤ jobs_created s.calls + 1)
        × (jobs_created s.calls < jobs_created (reconcile_environment_provider L api er s).1.calls
            → MayStart L er × (listed_jobs er s ≡ ok []))
  unfolding reconcile_environment_provider new_job
  reconcile_environment_provider-created er s =
      let r = status L api.jobs (manager er) s in
      let (said, _, quiet) = status_lem L api.jobs (manager er) s in
      let (once, may) = after_status-created er r.0.0 r.0.1 r.1 in
      let same = ap jobs_created quiet in
      (
        omega (arith, once, same),
        λ more.
            let (start, idle) = may (omega (arith, same, more)) in
            (start, expected-none _ (listed_jobs er s) (sym said ∙ idle)),
      )

  after_check-created :
      (er : EnvironmentRequest Time) (e : Option E) (s : Sys W (Call Time))
      → (jobs_created (after_check L api er e s).1.calls ≤ jobs_created s.calls + 1)
        × (jobs_created s.calls < jobs_created (after_check L api er e s).1.calls
            → MayStart L er × (listed_jobs er s ≡ ok []))
  unfolding after_check update_status
  after_check-created er none s = reconcile_environment_provider-created er s
  after_check-created er (some e) s = none_created refl

  abbrev pub checked : EnvironmentRequest Time → Sys W (Call Time) → Sys W (Call Time)
  checked er s =
      (check_providers L api.get_provider er.metadata.namespace (request_providers er) s).1

  check_and_follow-created :
      (er : EnvironmentRequest Time) (s : Sys W (Call Time))
      → (jobs_created (check_and_follow L api er s).1.calls ≤ jobs_created s.calls + 1)
        × (jobs_created s.calls < jobs_created (check_and_follow L api er s).1.calls
            → MayStart L er × (listed_jobs er (checked er s) ≡ ok []))
  unfolding check_and_follow
  check_and_follow-created er s =
      let same =
        ap jobs_created (
          check_providers-calls L api.get_provider er.metadata.namespace (request_providers er)
            s) in
      let (once, may) =
        after_check-created er
          (check_providers L api.get_provider er.metadata.namespace (request_providers er) s).0
          (checked er s) in
      (omega (arith, once, same), λ more. may (omega (arith, same, more)))

  after_find-created :
      (er : EnvironmentRequest Time) (c : Option (Condition Time)) (s : Sys W (Call Time))
      → (jobs_created (after_find L api er c s).1.calls ≤ jobs_created s.calls + 1)
        × (jobs_created s.calls < jobs_created (after_find L api er c s).1.calls
            → MayStart L er × (listed_jobs er (checked er s) ≡ ok []) × HasNotFailed c)
  unfolding after_find update_status
  after_find-created er none s = none_created refl
  after_find-created er (some c) s = elim (Bool-cases (c.reason ~ reason_failed)) [
    | inl f ↦ rw (f, after_find) (none_created refl)
    | inr f ↦
        let (once, may) = check_and_follow-created er s in
        rw (f, after_find) (once, λ more. ((may more).0, (may more).1, refl))
  ]

  created_lem :
      (er : EnvironmentRequest Time) (s : Sys W (Call Time))
      → (jobs_created (reconcile L api er s).1.calls ≤ jobs_created s.calls + 1)
        × (jobs_created s.calls < jobs_created (reconcile L api er s).1.calls
            → MayStart L er
              × (listed_jobs er (checked er s) ≡ ok [])
              × HasNotFailed (L.find_status_condition er.conditions status_ready))
  unfolding reconcile
  created_lem er s = after_find-created er (L.find_status_condition er.conditions status_ready) s

  -- One reconciliation of a request creates at most one provider job.
  pub reconcile-created_once :
      (er : EnvironmentRequest Time) (s : Sys W (Call Time))
      → jobs_created (reconcile L api er s).1.calls ≤ jobs_created s.calls + 1
  reconcile-created_once er s = (created_lem er s).0

  -- If a reconciliation creates a provider job, then the request is not being deleted, its condition
  -- Ready is there with a reason that is neither Failed nor Starting, and after the check of the
  -- providers the API server lists no job of the request.
  pub reconcile-created :
      (er : EnvironmentRequest Time) (s : Sys W (Call Time))
      → jobs_created s.calls < jobs_created (reconcile L api er s).1.calls
      → MayStart L er
        × (listed_jobs er (checked er s) ≡ ok [])
        × HasNotFailed (L.find_status_condition er.conditions status_ready)
  reconcile-created er s more = (created_lem er s).1 more
