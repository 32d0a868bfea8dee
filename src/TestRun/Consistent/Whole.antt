-- ===== src/TestRun/Consistent/Whole.antt =====
-- A whole reconciliation sends consistent test runs only.
use etos.Prelude.{◌≡◌, ap, true, false, ◌||◌, Option, none, some, String}
use etos.Kube.{Library, IsLawful, condition}
use etos.Kube.Monad.{Sys, Result, ok, err, M}
use etos.Jobs.Types.{JobStatus}
use etos.Jobs.{JobManager}
use etos.Controller.Reasons.{status_active, reason_failed}
use etos.Controller.{set_inconclusive_verdict_if_unset}
use etos.TestRun.Types.{TestRun, TestRunApi, EventPublisher, Call, Step}
use etos.TestRun.Quiet.{updates}
use etos.TestRun.Active.{reconcile_active_status}
use etos.TestRun.SuiteRunner.{set_on, reconcile_suite_runner}
use etos.TestRun.Consistent.{IsSound, IsFine, same-IsSound, finish_joined-IsFine}
use etos.TestRun.Types.{Cluster}
use etos.TestRun.Environments.{reconcile_environment_request, check_environment}
use etos.Controller.Reasons.{status_active, reason_failed}
use etos.TestRun.Consistent.Runner.{reconcile_suite_runner-IsFine}
use etos.TestRun.Consistent.Parts.{
  reconcile_active_status-IsFine, reconcile_environment_request-IsFine, check_environment-IsFine,
}
use etos.TestRun.Consistent.Late.{after_reconcile-IsSound}
use etos.TestRun.Retained.{manager}
use etos.Jobs.{status}
use etos.Jobs.Sorted.{status_lem}
use etos.Controller.{check_providers}
use etos.Controller.Quiet.{check_providers-calls}
use etos.TestRun.{
  with_publisher, with_cluster, and_then, after_check, fail_providers, after_status, follow_jobs_of,
  follow_parts, reconcile, reconcile_running,
}

module _ {W E Time Span : Type 0} (L : Library E Time) (api : TestRunApi W E Time Span) where
  and_then-IsSound :
      (step : Step E Time Span)
      (rest : TestRun Time Span → M W (Call Time Span) (TestRun Time Span × Option E))
      (s : Sys W (Call Time Span))
      → IsFine L api (step, s)
      → (step.0.completion_time ≡ none → IsSound L (rest step.0 s).1.calls)
      → IsSound L (and_then L api step rest s).1.calls
  unfolding and_then
  and_then-IsSound (tr, true, e) rest s fine more = fine.sound
  and_then-IsSound (tr, false, some e) rest s fine more = fine.sound
  and_then-IsSound (tr, false, none) rest s fine more = more fine.next

  after_status-IsSound :
      IsLawful L
      → (publisher : EventPublisher W E) (tr : TestRun Time Span) (r : Result E JobStatus)
        (j : JobManager Time) (s : Sys W (Call Time Span))
      → tr.completion_time ≡ none
      → IsSound L s.calls
      → IsSound L (after_status L api publisher tr r j s).1.calls
  unfolding after_status
  after_status-IsSound law publisher tr (err e) j s unset h = h
  after_status-IsSound law publisher tr (ok js) j s unset h =
      let of_runner = reconcile_suite_runner L api publisher js j tr s in
      let fine = reconcile_suite_runner-IsFine L api publisher js j tr s unset h in
      and_then-IsSound of_runner.0 _ of_runner.1 fine λ unset'.
        let of_active = reconcile_active_status L api of_runner.0.0 of_runner.1 in
        let fine' =
          reconcile_active_status-IsFine L api law of_runner.0.0 of_runner.1 unset' fine.sound in
        and_then-IsSound of_active.0 _ of_active.1 fine' λ _. fine'.sound

  follow_parts-IsSound :
      IsLawful L
      → (cluster : Cluster) (publisher : EventPublisher W E) (tr : TestRun Time Span)
        (s : Sys W (Call Time Span))
      → tr.completion_time ≡ none
      → IsSound L s.calls
      → IsSound L (follow_parts L api cluster publisher tr s).1.calls
  unfolding follow_parts follow_jobs_of
  follow_parts-IsSound law cluster publisher tr s unset h =
      let first = reconcile_environment_request L api cluster publisher tr s in
      let fine = reconcile_environment_request-IsFine L api cluster publisher tr s unset h in
      and_then-IsSound first.0 _ first.1 fine λ unset'.
        let second = check_environment L api first.0.0 first.1 in
        let fine' = check_environment-IsFine L api first.0.0 first.1 unset' fine.sound in
        and_then-IsSound second.0 _ second.1 fine' λ unset''.
          let r = status L api.jobs (manager second.0.0) second.1 in
          let (_, _, quiet) = status_lem L api.jobs (manager second.0.0) second.1 in
          after_status-IsSound law publisher second.0.0 r.0.0 r.0.1 r.1 unset''
            (same-IsSound L api second.1.calls r.1.calls (ap updates quiet) fine'.sound)

  fail_providers-IsSound :
      (tr : TestRun Time Span) (e : E) (s : Sys W (Call Time Span))
      → tr.completion_time ≡ none
      → IsSound L s.calls
      → IsSound L (fail_providers L api tr e s).1.calls
  unfolding fail_providers
  fail_providers-IsSound tr e s unset h =
      let set =
        set_on L api tr (condition L status_active "False" reason_failed (L.error_text e)) s in
      let tr' = set.0.0 in
      let verdict = set_inconclusive_verdict_if_unset tr'.verdict in
      (finish_joined-IsFine L api (set.0.1 || verdict.1) (record tr' { verdict = verdict.0 })
        (some e) set.1 unset h).sound

  after_check-IsSound :
      IsLawful L
      → (cluster : Cluster) (publisher : EventPublisher W E) (tr : TestRun Time Span) (e : Option E)
        (s : Sys W (Call Time Span))
      → tr.completion_time ≡ none
      → IsSound L s.calls
      → IsSound L (after_check L api cluster publisher tr e s).1.calls
  unfolding after_check
  after_check-IsSound law cluster publisher tr none s unset h =
      follow_parts-IsSound law cluster publisher tr s unset h
  after_check-IsSound law cluster publisher tr (some e) s unset h =
      fail_providers-IsSound tr e s unset h

  reconcile-IsSound :
      IsLawful L
      → (cluster : Cluster) (publisher : EventPublisher W E) (tr : TestRun Time Span)
        (s : Sys W (Call Time Span))
      → tr.completion_time ≡ none
      → IsSound L s.calls
      → IsSound L (reconcile L api cluster publisher tr s).1.calls
  unfolding reconcile
  reconcile-IsSound law cluster publisher tr s unset h =
      let checked = check_providers L api.get_provider tr.metadata.namespace tr.spec.providers s in
      let h' =
        same-IsSound L api s.calls checked.1.calls
          (ap updates
            (check_providers-calls L api.get_provider tr.metadata.namespace tr.spec.providers s))
          h in
      after_check-IsSound law cluster publisher tr checked.0 checked.1 unset h'

  with_publisher-IsSound :
      IsLawful L
      → (cluster : Cluster) (tr : TestRun Time Span) (r : Result E (EventPublisher W E))
        (s : Sys W (Call Time Span))
      → tr.completion_time ≡ none
      → IsSound L s.calls
      → IsSound L (with_publisher L api cluster tr r s).1.calls
  unfolding with_publisher
  with_publisher-IsSound law cluster tr (err e) s unset h = h
  with_publisher-IsSound law cluster tr (ok publisher) s unset h =
      let r = reconcile L api cluster publisher tr s in
      after_reconcile-IsSound L api law publisher r.0.0 r.0.1 r.1
        (reconcile-IsSound law cluster publisher tr s unset h)

  with_cluster-IsSound :
      IsLawful L
      → (tr : TestRun Time Span) (r : Result E Cluster) (s : Sys W (Call Time Span))
      → tr.completion_time ≡ none
      → IsSound L s.calls
      → IsSound L (with_cluster L api tr r s).1.calls
  unfolding with_cluster
  with_cluster-IsSound law tr (err e) s unset h = h
  with_cluster-IsSound law tr (ok cluster) s unset h =
      let got = api.get_publisher cluster.namespace cluster.etos_message_bus s.server in
      with_publisher-IsSound law cluster tr got.0 (record s { server = got.1 }) unset h

  -- A reconciliation of a test run that has not completed sends only statuses that are consistent: if
  -- there is a completion time, then there is a condition Active, and it is False.
  pub reconcile_running-IsSound :
      IsLawful L
      → (namespace : String) (tr : TestRun Time Span) (s : Sys W (Call Time Span))
      → tr.completion_time ≡ none
      → IsSound L s.calls
      → IsSound L (reconcile_running L api namespace tr s).1.calls
  unfolding reconcile_running
  reconcile_running-IsSound law namespace tr s unset h =
      let found = api.get_cluster namespace tr.spec.cluster s.server in
      with_cluster-IsSound law tr found.0 (record s { server = found.1 }) unset h
