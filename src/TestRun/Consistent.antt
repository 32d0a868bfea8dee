-- ===== src/TestRun/Consistent.antt =====
-- A test run with a completion time has a condition Active, which is False: a reconciliation sends no
-- other status. Reconcile reads that condition of a completed test run without a check for nil.
pub mod Runner
pub mod Parts
pub mod Late
pub mod Whole
use etos.Prelude.{
  ◌≡◌, ◌≢◌, refl, sym, subst, ◌∙◌, ap, Bool, true, false, not, ◌||◌, ◌&&◌, if◌then◌else◌, Option,
  none, some, Bool-cases, Option-cases, inl, inr, String, List, [], ◌∷◌, arith, ◌~◌, eq_iff,
}
use etos.Kube.{Condition, Library, IsLawful, ObjectMeta, condition, is_zero}
use etos.Kube.Monad.{Sys, Result, ok, err, M, ◌>>=◌, Keeps, pure}
use etos.Jobs.Types.{JobResult, JobStatus, verdict_none}
use etos.Jobs.{JobManager, create, delete}
use etos.Jobs.Deletion.{delete-Keeps}
use etos.Jobs.Results.{result}
use etos.Jobs.Results.Quiet.{result-calls}
use etos.Controller.Reasons.{
  status_active, reason_pending, reason_completed, status_environment, status_suite_runner,
  reason_active, reason_failed, reason_starting,
}
use etos.Controller.{is_status_reason, set_inconclusive_verdict_if_unset}
use etos.TestRun.Types.{
  TestRun, TestRunApi, EventPublisher, Shutdown, Call, Step, publish, job_log, stored, finish,
  finish_if, finish_joined, update_status,
}
use etos.TestRun.Grouping.{Each}
use etos.TestRun.Quiet.{updates, suite_runner_job-calls, delete_environment_requests-Keeps}
use etos.TestRun.Active.{Draft, finish_active, start_active, follow_active, reconcile_active_status}
use etos.TestRun.SuiteRunner.{
  set_on, suite_runner, shutdown_of, failed_shutdown, end_suite_runner, follow_active_job,
  not_created, settle_not_created, after_create, start_suite_runner, follow_jobs, clean_up_failed,
  reconcile_suite_runner,
}
use etos.TestRun.SuiteRunnerJob.{suite_runner_job}
use etos.TestRun.Requests.{delete_environment_requests}

-- What a completion time asks of the condition Active.
abbrev pub IsOver : {Time : Type 0} → Option Time → Option (Condition Time) → Type 0
IsOver none c = Unit
IsOver (some t) none = ⊥
IsOver (some t) (some c) = c.status ≡ "False"

module _ {E Time Span : Type 0} (L : Library E Time) where
  abbrev pub IsConsistent : TestRun Time Span → Type 0
  IsConsistent tr = IsOver tr.completion_time (L.find_status_condition tr.conditions status_active)

  -- Every status update that was sent is of a consistent test run.
  abbrev pub IsSound : List (Call Time Span) → Type 0
  IsSound calls = Each IsConsistent (updates calls)

  -- A part after which the next one follows has left the test run without a completion time.
  abbrev pub IsOpen : Step E Time Span → Type 0
  IsOpen (tr, true, e) = Unit
  IsOpen (tr, false, some e) = Unit
  IsOpen (tr, false, none) = tr.completion_time ≡ none

  pub open-IsConsistent : (tr : TestRun Time Span) → tr.completion_time ≡ none → IsConsistent tr
  open-IsConsistent tr h = rw h tt

module _ {E Time : Type 0} (L : Library E Time) where
  -- The condition Active set to False.
  pub active-IsOver :
      IsLawful L
      → (now : Time) (cs : List (Condition Time)) (status reason message : String)
      → status ≡ "False"
      → (t : Time)
      → IsOver (some t) (
          L.find_status_condition
            (L.set_status_condition now cs (condition L status_active status reason message)).0
            status_active)
  active-IsOver law now cs status reason message ended t =
      let (d, found, same, _, _) =
        law.find-set now cs (condition L status_active status reason message) in
      rw found (same ∙ ended)

module _ {W E Time Span : Type 0} (L : Library E Time) (api : TestRunApi W E Time Span) where
  -- What a part of the reconciliation has come to keeps to this.
  pub record IsFine (r : Step E Time Span × Sys W (Call Time Span)) : Type 0 where
    pub sound : IsSound L r.1.calls
    pub next : IsOpen L r.0

  pub finish-IsFine :
      (tr : TestRun Time Span) (s : Sys W (Call Time Span))
      → IsConsistent L tr
      → IsSound L s.calls
      → IsFine (finish api tr s)
  unfolding finish update_status
  finish-IsFine tr s c h = record { sound = (c, h); next = tt }

  pub finish_unset :
      (tr : TestRun Time Span) (s : Sys W (Call Time Span))
      → tr.completion_time ≡ none
      → IsSound L s.calls
      → IsFine (finish api tr s)
  finish_unset tr s unset h = finish-IsFine tr s (open-IsConsistent L tr unset) h

  pub if-IsFine :
      (b : Bool) (m n : M W (Call Time Span) (Step E Time Span)) (s : Sys W (Call Time Span))
      → IsFine (m s)
      → IsFine (n s)
      → IsFine ((if b then m else n) s)
  if-IsFine true m n s fm fn = fm
  if-IsFine false m n s fm fn = fn

  -- A log with the same updates.
  pub same-IsSound :
      (calls others : List (Call Time Span))
      → updates others ≡ updates calls
      → IsSound L calls
      → IsSound L others
  same-IsSound calls others same h = subst (λ u. Each (IsConsistent L) u) (sym same) h

  pub finish_if-IsFine :
      (b : Bool) (tr : TestRun Time Span) (s : Sys W (Call Time Span))
      → tr.completion_time ≡ none
      → IsSound L s.calls
      → IsFine (finish_if api b tr s)
  unfolding finish_if
  finish_if-IsFine true tr s unset h = finish_unset tr s unset h
  finish_if-IsFine false tr s unset h = record { sound = h; next = unset }

  pub finish_joined-IsFine :
      (b : Bool) (tr : TestRun Time Span) (e : Option E) (s : Sys W (Call Time Span))
      → tr.completion_time ≡ none
      → IsSound L s.calls
      → IsFine (finish_joined L api b tr e s)
  unfolding finish_joined update_status
  finish_joined-IsFine true tr e s unset h = record {
    sound = (open-IsConsistent L tr unset, h);
    next = tt;
  }
  finish_joined-IsFine false tr (some e) s unset h = record { sound = h; next = tt }
  finish_joined-IsFine false tr none s unset h = record { sound = h; next = unset }
