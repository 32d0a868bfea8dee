-- ===== src/TestRun/Consistent/Late.antt =====
-- The deadline of a test run is recorded in a consistent status.
use etos.Prelude.{refl, Bool, ◌<>◌, true, false, Option, none, some, Bool-cases, inl, inr, String}
use etos.Kube.{Condition, Library, IsLawful, condition}
use etos.Kube.Monad.{Sys}
use etos.Controller.Reasons.{status_active}
use etos.Controller.{set_inconclusive_verdict_if_unset}
use etos.TestRun.Types.{TestRun, TestRunApi, EventPublisher, Call, update_status}
use etos.TestRun.SuiteRunner.{set_on}
use etos.TestRun.Consistent.{IsSound, IsOver, active-IsOver}
use etos.Controller.Reasons.{status_active, reason_timed_out}
use etos.TestRun.Deadline.{time_out, settle_timed_out, check_deadline}
use etos.Environment.TimeOut.{is_unset}
use etos.TestRun.{after_reconcile}

Option-IsOver :
    {Time : Type 0} (c : Option (Condition Time))
    → ((t : Time) → IsOver (some t) c)
    → (t : Option Time) → IsOver t c
Option-IsOver c over none = tt
Option-IsOver c over (some t) = over t

module _ {W E Time Span : Type 0} (L : Library E Time) (api : TestRunApi W E Time Span) where
  settle_timed_out-IsSound :
      (publisher : EventPublisher W E) (message : String) (tr : TestRun Time Span)
      (changed verdict_changed : Bool) (s : Sys W (Call Time Span))
      → ((t : Option Time) → IsOver t (L.find_status_condition tr.conditions status_active))
      → IsSound L s.calls
      → IsSound L (settle_timed_out L api publisher message tr changed verdict_changed s).1.calls
  unfolding settle_timed_out update_status
  settle_timed_out-IsSound publisher message tr true v s over h =
      (over (some (api.now s.server).0), h)
  settle_timed_out-IsSound publisher message tr false true s over h = (over tr.completion_time, h)
  settle_timed_out-IsSound publisher message tr false false s over h = h

  time_out-IsSound :
      IsLawful L
      → (publisher : EventPublisher W E) (tr : TestRun Time Span) (deadline : Time)
        (s : Sys W (Call Time Span))
      → IsSound L s.calls
      → IsSound L (time_out L api publisher tr deadline s).1.calls
  unfolding time_out
  time_out-IsSound law publisher tr deadline s h =
      let message = "Testrun deadline of " <> (api.time_text deadline <> " exceeded") in
      let set = set_on L api tr (condition L status_active "False" reason_timed_out message) s in
      let tr' = set.0.0 in
      let verdict = set_inconclusive_verdict_if_unset tr'.verdict in
      settle_timed_out-IsSound publisher message (record tr' { verdict = verdict.0 }) set.0.1
        verdict.1 set.1
        (Option-IsOver _
          (active-IsOver L law _ tr.conditions "False" reason_timed_out message refl))
        h

  check_deadline-IsSound :
      IsLawful L
      → (publisher : EventPublisher W E) (tr : TestRun Time Span) (s : Sys W (Call Time Span))
      → IsSound L s.calls
      → IsSound L (check_deadline L api publisher tr s).1.calls
  unfolding check_deadline
  check_deadline-IsSound law publisher tr s h =
      let t = api.now s.server in
      elim (Bool-cases (is_unset tr.spec.deadline)) [
        | inl unset ↦ rw (unset, check_deadline) h
        | inr given ↦ elim (Bool-cases (L.after t.0 (api.unix tr.spec.deadline))) [
          | inl late ↦
              rw (given, late, check_deadline)
                (time_out-IsSound law publisher tr (api.unix tr.spec.deadline) _ h)
          | inr early ↦ rw (given, early, check_deadline) h
        ]
      ]

  pub after_reconcile-IsSound :
      IsLawful L
      → (publisher : EventPublisher W E) (tr : TestRun Time Span) (e : Option E)
        (s : Sys W (Call Time Span))
      → IsSound L s.calls
      → IsSound L (after_reconcile L api publisher tr e s).1.calls
  unfolding after_reconcile
  after_reconcile-IsSound law publisher tr none s h = check_deadline-IsSound law publisher tr s h
  after_reconcile-IsSound law publisher tr (some e) s h = elim (Bool-cases (L.is_conflict e)) [
    | inl conflict ↦ rw (conflict, after_reconcile) h
    | inr bad ↦ rw (bad, after_reconcile) h
  ]
