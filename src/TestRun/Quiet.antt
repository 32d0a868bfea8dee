-- ===== src/TestRun/Quiet.antt =====
-- What the parts of the reconciler of test runs leave alone in the log of calls.
use etos.Prelude.{
  ℕ, suc, ◌≡◌, refl, ◌∙◌, Option, none, some, Bool-cases, Option-cases, inl, inr, String, List, [],
  ◌∷◌,
}
use etos.Kube.{Library, is_zero}
use etos.Kube.Monad.{Sys, Result, ok, err, M, >>?-IsQuiet, Keeps, ask}
use etos.Api.{EnvironmentRequest, Test}
use etos.TestRun.Types.{
  TestRun, TestRunApi, Suite, Cluster, Call, updated, updated_status, deleted, created_request,
  deleted_request, created_job, deleted_job, published,
}
use etos.TestRun.NewRequest.{environment_request}
use etos.TestRun.SuiteRunnerJob.{suite_runner_job}
use etos.TestRun.Requests.{
  listed, unless_failed, delete_requests, delete_listed, delete_environment_requests, is_requested,
  request_name, create_controlled, unless_error, create_groups, create_environment_requests,
  create_for_suites,
}

-- The status updates that were sent, last first.
abbrev pub updates : {Time Span : Type 0} → List (Call Time Span) → List (TestRun Time Span)
updates [] = []
updates (updated_status tr ∷ calls) = tr ∷ updates calls
updates (updated tr ∷ calls) = updates calls
updates (deleted tr ∷ calls) = updates calls
updates (created_request n ∷ calls) = updates calls
updates (deleted_request name ∷ calls) = updates calls
updates (created_job spec ∷ calls) = updates calls
updates (deleted_job name ∷ calls) = updates calls
updates (published id event ∷ calls) = updates calls

-- How many jobs were created.
abbrev pub jobs_created : {Time Span : Type 0} → List (Call Time Span) → ℕ
jobs_created [] = 0
jobs_created (created_job spec ∷ calls) = suc (jobs_created calls)
jobs_created (updated_status tr ∷ calls) = jobs_created calls
jobs_created (updated tr ∷ calls) = jobs_created calls
jobs_created (deleted tr ∷ calls) = jobs_created calls
jobs_created (created_request n ∷ calls) = jobs_created calls
jobs_created (deleted_request name ∷ calls) = jobs_created calls
jobs_created (deleted_job name ∷ calls) = jobs_created calls
jobs_created (published id event ∷ calls) = jobs_created calls

module _ {W E Time Span X : Type 0} (L : Library E Time) (api : TestRunApi W E Time Span)
    (f : List (Call Time Span) → X) where
  module _
      (of_request : (name : String) (log : List (Call Time Span))
        → f (deleted_request name ∷ log) ≡ f log) where
    unless_failed-Keeps :
        (e : Option E) (m : M W (Call Time Span) (Option E))
        → Keeps f m
        → Keeps f (unless_failed L api e m)
    unfolding unless_failed
    unless_failed-Keeps none m k s = k s
    unless_failed-Keeps (some e) m k s = elim (Bool-cases (L.is_not_found e)) [
      | inl gone ↦ rw (gone, unless_failed) (k s)
      | inr bad ↦ rw (bad, unless_failed) refl
    ]

    delete_requests-Keeps :
        (requests : List (EnvironmentRequest Time)) → Keeps f (delete_requests L api requests)
    unfolding delete_requests
    delete_requests-Keeps [] s = refl
    delete_requests-Keeps (r ∷ rs) s = elim (Bool-cases (is_zero r.metadata.deletion_timestamp)) [
      | inl there ↦
          let sent = api.delete_request r s.server in
          rw (there, delete_requests)
            (unless_failed-Keeps sent.0 (delete_requests L api rs) (delete_requests-Keeps rs) _
              ∙ of_request r.metadata.name s.calls)
      | inr gone ↦ rw (gone, delete_requests) (delete_requests-Keeps rs s)
    ]

    delete_listed-Keeps :
        (r : Result E (List (EnvironmentRequest Time))) → Keeps f (delete_listed L api r)
    unfolding delete_listed
    delete_listed-Keeps (ok rs) s = delete_requests-Keeps rs s
    delete_listed-Keeps (err e) s = refl

    pub delete_environment_requests-Keeps :
        (tr : TestRun Time Span) → Keeps f (delete_environment_requests L api tr)
    unfolding delete_environment_requests
    delete_environment_requests-Keeps tr s =
        let r = api.list_requests tr.metadata.namespace tr.metadata.name s.server in
        delete_listed-Keeps (listed L r.0) (record s { server = r.1 })

module _ {W E Time Span X : Type 0} (api : TestRunApi W E Time Span) (f : List (Call Time Span) → X)
    (of_request : (n : _) (log : List (Call Time Span)) → f (created_request n ∷ log) ≡ f log) where
  unless_error-Keeps :
      (e : Option E) (m : M W (Call Time Span) (Option E))
      → Keeps f m
      → Keeps f (unless_error api e m)
  unfolding unless_error
  unless_error-Keeps none m k s = k s
  unless_error-Keeps (some e) m k s = refl

  create_controlled-Keeps : (tr : TestRun Time Span) (n : _) → Keeps f (create_controlled api tr n)
  unfolding create_controlled
  create_controlled-Keeps tr n s = elim (Option-cases (api.control_request tr n)) [
    | inl free ↦ rw (free, create_controlled) (of_request n s.calls)
    | inr (e, bad) ↦ rw (bad, create_controlled) refl
  ]

  create_groups-Keeps :
      (suite : Suite) (requests : List (EnvironmentRequest Time)) (tr : TestRun Time Span)
      (cluster : Cluster) (indices : List (String × ℕ)) (amount : ℕ)
      (groups : List (String × List Test))
      → Keeps f (create_groups api suite requests tr cluster indices amount groups)
  unfolding create_groups environment_request
  create_groups-Keeps suite requests tr cluster indices amount [] s = refl
  create_groups-Keeps suite requests tr cluster indices amount ((runner, tests) ∷ groups) s =
      elim (Bool-cases (is_requested api requests suite.name runner)) [
        | inl there ↦
            rw (there, create_groups)
              (create_groups-Keeps suite requests tr cluster indices amount groups s)
        | inr new ↦
            let made =
              environment_request api (request_name api suite indices amount runner) runner cluster
                tr tests suite.dataset s in
            let sent = create_controlled api tr made.0 made.1 in
            rw (new, create_groups)
              (unless_error-Keeps sent.0 _
                  (create_groups-Keeps suite requests tr cluster indices amount groups) sent.1
                ∙ create_controlled-Keeps tr made.0 made.1)
      ]

  pub create_for_suites-Keeps :
      (suites : List Suite) (requests : List (EnvironmentRequest Time)) (tr : TestRun Time Span)
      (cluster : Cluster)
      → Keeps f (create_for_suites api suites requests tr cluster)
  unfolding create_for_suites create_environment_requests
  create_for_suites-Keeps [] requests tr cluster s = refl
  create_for_suites-Keeps (suite ∷ suites) requests tr cluster s =
      let made = create_environment_requests api suite requests tr cluster s in
      unless_error-Keeps made.0 _ (create_for_suites-Keeps suites requests tr cluster) made.1
      ∙ create_groups-Keeps suite requests tr cluster _ _ _ _

module _ {W E Time Span : Type 0} (api : TestRunApi W E Time Span) where
  pub suite_runner_job-calls :
      (tr : TestRun Time Span) (s : Sys W (Call Time Span))
      → (suite_runner_job api tr s).1.calls ≡ s.calls
  unfolding suite_runner_job
  suite_runner_job-calls tr =
      >>?-IsQuiet (ask (api.get_cluster tr.metadata.namespace tr.spec.cluster)) _ (λ s. refl)
        λ cluster s. refl
