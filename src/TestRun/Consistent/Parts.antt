-- ===== src/TestRun/Consistent/Parts.antt =====
-- The parts for the environments and the condition Active send consistent test runs.
use etos.Prelude.{
  ◌≡◌, refl, Bool, true, false, ◌||◌, ◌&&◌, if◌then◌else◌, Option, none, some, Bool-cases,
  Option-cases, inl, inr, List, [], ◌∷◌, ◌~◌, eq_iff,
}
use etos.Kube.{Condition, Library, IsLawful, ObjectMeta, condition, is_zero}
use etos.Kube.Monad.{Sys, Result, ok, err}
use etos.Controller.Reasons.{
  status_active, reason_pending, reason_completed, status_environment, reason_failed,
}
use etos.Controller.{is_status_reason, set_condition, set_inconclusive_verdict_if_unset}
use etos.TestRun.Types.{TestRun, TestRunApi, EventPublisher, Call, publish}
use etos.TestRun.Quiet.{updates, delete_environment_requests-Keeps}
use etos.TestRun.Active.{
  Draft, draft_active, finish_active, start_active, follow_active, reconcile_active_status,
}
use etos.TestRun.SuiteRunner.{set_on, failed_shutdown}
use etos.TestRun.Requests.{delete_environment_requests}
use etos.TestRun.Consistent.{
  IsSound, IsOver, IsFine, active-IsOver, finish-IsFine, finish_unset, if-IsFine, same-IsSound,
  finish_if-IsFine, finish_joined-IsFine,
}
use etos.TestRun.Types.{Cluster}
use etos.TestRun.Quiet.{create_for_suites-Keeps}
use etos.TestRun.Requests.{listed, create_for_suites}
use etos.Api.{EnvironmentRequest}
use etos.TestRun.Environments.{
  environment, references, clean_up_environment, fail_environment, is_failure, message_of,
  check_requests, after_creation, follow_requests, reconcile_environment_request,
  follow_environments, check_environment,
}
use etos.Controller.Reasons.{status_ready, reason_timed_out}

module _ {W E Time Span : Type 0} (L : Library E Time) (api : TestRunApi W E Time Span) where
  start_active-IsFine :
      (tr : TestRun Time Span) (s : Sys W (Call Time Span))
      → tr.completion_time ≡ none
      → IsSound L s.calls
      → IsFine L api (start_active L api tr s)
  unfolding start_active
  start_active-IsFine tr s unset h = finish_unset L api _ _ unset h

  finish_active-IsFine :
      (tr : TestRun Time Span) (draft : Draft) (set : List (Condition Time) × Bool)
      (s : Sys W (Call Time Span))
      → ((t : Time)
          → draft.status ≡ "False"
          → IsOver (some t) (L.find_status_condition set.0 status_active))
      → tr.completion_time ≡ none
      → IsSound L s.calls
      → IsFine L api (finish_active L api tr draft set s)
  unfolding finish_active
  finish_active-IsFine tr draft (cs, false) s over unset h =
      let verdict = set_inconclusive_verdict_if_unset tr.verdict in
      let settle =
        (draft.status ~ "False")
        && ((draft.reason ~ reason_failed) || (draft.reason ~ reason_timed_out)) in
      finish_if-IsFine L api (settle && verdict.1)
        (record tr { conditions = cs; verdict = if settle then verdict.0 else tr.verdict }) s unset
        h
  finish_active-IsFine tr draft (cs, true) s over unset h =
      let t = api.now s.server in
      elim (Bool-cases (draft.status ~ "False")) [
        | inl ended ↦
            rw (ended, finish_active)
              (finish-IsFine L api (record tr { conditions = cs; completion_time = some t.0 }) _
                (over t.0 ((eq_iff draft.status "False").0 ended)) h)
        | inr runs ↦
            rw (runs, finish_active) (finish_unset L api (record tr { conditions = cs }) s unset h)
      ]

  pub reconcile_active_status-IsFine :
      IsLawful L
      → (tr : TestRun Time Span) (s : Sys W (Call Time Span)) → tr.completion_time ≡ none
      → IsSound L s.calls
      → IsFine L api (reconcile_active_status L api tr s)
  unfolding reconcile_active_status follow_active
  reconcile_active_status-IsFine law tr s unset h =
      let draft = draft_active L tr.conditions in
      let set =
        set_condition L api.now tr.conditions
          (condition L status_active draft.status draft.reason draft.message) s in
      elim (Option-cases (L.find_status_condition tr.conditions status_active)) [
        | inl new ↦ rw (new, reconcile_active_status) (start_active-IsFine tr s unset h)
        | inr (c, there) ↦
            rw (there, reconcile_active_status)
              (if-IsFine L api (draft.status ~ "Unknown") _ _ s (record { sound = h; next = unset })
                (finish_active-IsFine tr draft set.0 set.1
                  (λ t ended.
                    active-IsOver L law _ tr.conditions draft.status draft.reason draft.message
                      ended t)
                  unset h))
      ]

  clean_up_environment-IsFine :
      (publisher : EventPublisher W E) (tr : TestRun Time Span) (s : Sys W (Call Time Span))
      → tr.completion_time ≡ none
      → IsSound L s.calls
      → IsFine L api (clean_up_environment L api publisher tr s)
  unfolding clean_up_environment
  clean_up_environment-IsFine publisher tr s unset h =
      let verdict = set_inconclusive_verdict_if_unset tr.verdict in
      let settled = record tr { verdict = verdict.0 } in
      let told =
        (publish api publisher tr (failed_shutdown "Environment provisioning failed") s).1 in
      let of_requests = delete_environment_requests L api settled told in
      finish_joined-IsFine L api verdict.1 settled of_requests.0 of_requests.1 unset (
        same-IsSound L api s.calls of_requests.1.calls
          (delete_environment_requests-Keeps L api updates (λ name log. refl) settled told) h)

  fail_environment-IsFine :
      (tr : TestRun Time Span) (request : EnvironmentRequest Time) (s : Sys W (Call Time Span))
      → tr.completion_time ≡ none
      → IsSound L s.calls
      → IsFine L api (fail_environment L api tr request s)
  unfolding fail_environment
  fail_environment-IsFine tr request s unset h =
      let message = message_of (L.find_status_condition request.conditions status_ready) in
      let set = set_on L api tr (environment L api "False" reason_failed message) s in
      let tr' = set.0.0 in
      let pass : IsFine L api ((tr', false, none), set.1) = record { sound = h; next = unset } in
      if-IsFine L api set.0.1 _ _ set.1
        (finish_unset L api
          (record tr' { verdict = (set_inconclusive_verdict_if_unset tr'.verdict).0 }) _ unset h)
        (if-IsFine L api (is_zero request.metadata.deletion_timestamp) _ _ set.1
          (record { sound = h; next = unset }) pass)

  check_requests-IsFine :
      (tr : TestRun Time Span) (requests : List (EnvironmentRequest Time))
      (s : Sys W (Call Time Span))
      → tr.completion_time ≡ none
      → IsSound L s.calls
      → IsFine L api (check_requests L api tr requests s)
  unfolding check_requests
  check_requests-IsFine tr [] s unset h = record { sound = h; next = unset }
  check_requests-IsFine tr (r ∷ rs) s unset h =
      elim (Bool-cases (is_failure (L.find_status_condition r.conditions status_ready))) [
        | inl failed ↦ rw (failed, check_requests) (fail_environment-IsFine tr r s unset h)
        | inr fine ↦ rw (fine, check_requests) (check_requests-IsFine tr rs s unset h)
      ]

  after_creation-IsFine :
      (tr : TestRun Time Span) (requests : List (EnvironmentRequest Time)) (e : Option E)
      (s : Sys W (Call Time Span))
      → tr.completion_time ≡ none
      → IsSound L s.calls
      → IsFine L api (after_creation L api tr requests e s)
  unfolding after_creation
  after_creation-IsFine tr requests none s unset h = check_requests-IsFine tr requests s unset h
  after_creation-IsFine tr requests (some e) s unset h = record { sound = h; next = tt }

  follow_requests-IsFine :
      (cluster : Cluster) (tr : TestRun Time Span) (r : Result E (List (EnvironmentRequest Time)))
      (s : Sys W (Call Time Span))
      → tr.completion_time ≡ none
      → IsSound L s.calls
      → IsFine L api (follow_requests L api cluster tr r s)
  unfolding follow_requests
  follow_requests-IsFine cluster tr (err e) s unset h = record { sound = h; next = tt }
  follow_requests-IsFine cluster tr (ok requests) s unset h =
      let tr' = record tr { environment_requests = references L api requests } in
      let made = create_for_suites api tr.spec.suites requests tr' cluster s in
      let h' =
        same-IsSound L api s.calls made.1.calls
          (create_for_suites-Keeps api updates (λ n log. refl) tr.spec.suites requests tr' cluster
            s)
          h in
      after_creation-IsFine tr' requests made.0 made.1 unset h'

  pub reconcile_environment_request-IsFine :
      (cluster : Cluster) (publisher : EventPublisher W E) (tr : TestRun Time Span)
      (s : Sys W (Call Time Span))
      → tr.completion_time ≡ none
      → IsSound L s.calls
      → IsFine L api (reconcile_environment_request L api cluster publisher tr s)
  unfolding reconcile_environment_request
  reconcile_environment_request-IsFine cluster publisher tr s unset h =
      let listing = api.list_requests tr.metadata.namespace tr.metadata.name s.server in
      elim (Option-cases (L.find_status_condition tr.conditions status_environment)) [
        | inl new ↦
            let set =
              set_on L api tr (environment L api "False" reason_pending "Reconciliation started")
                s in
            rw (new, reconcile_environment_request) (finish_unset L api set.0.0 set.1 unset h)
        | inr (c, there) ↦
            rw (there, reconcile_environment_request)
              (if-IsFine L api (is_status_reason L tr.conditions status_environment reason_failed) _
                _ s (clean_up_environment-IsFine publisher tr s unset h)
                (follow_requests-IsFine cluster tr (listed L listing.0)
                  (record s { server = listing.1 }) unset h))
      ]

  follow_environments-IsFine :
      (tr : TestRun Time Span) (r : Result E (List (ObjectMeta Time))) (s : Sys W (Call Time Span))
      → tr.completion_time ≡ none
      → IsSound L s.calls
      → IsFine L api (follow_environments L api tr r s)
  unfolding follow_environments
  follow_environments-IsFine tr (err e) s unset h = record { sound = h; next = tt }
  follow_environments-IsFine tr (ok []) s unset h = record { sound = h; next = unset }
  follow_environments-IsFine tr (ok (x ∷ xs)) s unset h =
      let set = set_on L api tr (environment L api "True" reason_completed "Environment ready") s in
      finish_if-IsFine L api set.0.1 set.0.0 set.1 unset h

  pub check_environment-IsFine :
      (tr : TestRun Time Span) (s : Sys W (Call Time Span))
      → tr.completion_time ≡ none
      → IsSound L s.calls
      → IsFine L api (check_environment L api tr s)
  unfolding check_environment
  check_environment-IsFine tr s unset h =
      let listing = api.list_environments tr.metadata.namespace tr.spec.id s.server in
      follow_environments-IsFine tr listing.0 (record s { server = listing.1 }) unset h
