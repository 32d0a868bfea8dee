-- ===== src/Environment/Completion.antt =====
-- When the reconciler of environments gives an environment its completion time.
use etos.Prelude.{
  ◌<◌, ◌≡◌, ◌≢◌, inl, inr, refl, ◌∙◌, ap, Bool, true, false, not, ◌&&◌, Option, none, some, String,
  List, [], arith, Bool-cases,
}
use etos.Kube.{Condition, Library, is_zero}
use etos.Kube.Monad.{Sys, Result, ok, err}
use etos.Jobs.Types.{JobStatus}
use etos.Jobs.{JobManager, status, create}
use etos.Jobs.Results.{result}
use etos.Jobs.Results.Quiet.{result-calls}
use etos.Jobs.Sorted.{status_lem}
use etos.Controller.{release_finalizer, is_status_reason}
use etos.Controller.Reasons.{status_active, reason_pending}
use etos.Environment.Types.{
  Environment, Kind, iut_kind, log_area_kind, execution_space_kind, EnvironmentApi, Call, job_log,
  update_status,
}
use etos.Environment.Resources.{release_providers}
use etos.Environment.ReleaseJob.{release_job}
use etos.Environment.Releasing.{Stopped, AllFree, release_providers_lem}
use etos.Environment.{
  manager, kept_reason, after_release, after_create, follow_release, after_status,
  reconcile_release, after_find, reconcile,
}
use etos.Environment.Completes.{
  completes, same_completes, set_and_update-completes, reconcile_environment-completes,
  create-completes,
}

module _ {W E Time : Type 0} (L : Library E Time) (api : EnvironmentApi W E Time) where
  after_create-completes :
      (env : Environment Time) (reason : String) (e : Option E) (s : Sys W (Call Time))
      → env.completion_time ≡ none
      → completes (after_create L api env reason e s).1.calls ≡ completes s.calls
  unfolding after_create update_status
  after_create-completes env reason none s running = refl
  after_create-completes env reason (some e) s running = ground arith

  Stopped-completes :
      (kind : Kind) (before : List (Call Time)) (out : (Bool × Option E) × Sys W (Call Time))
      → Stopped kind before out
      → completes out.1.calls ≡ completes before
  Stopped-completes kind before out stopped = elim stopped.sent [
    | inl e ↦ ap completes e
    | inr (r, e) ↦ ap completes e
  ]

  after_release-unfinished :
      (j : JobManager Time) (env : Environment Time) (c : Condition Time) (out : Bool × Option E)
      (s : Sys W (Call Time))
      → out ≢ (false, none)
      → (after_release L api j env c out s).1.calls ≡ s.calls
  unfolding after_release
  after_release-unfinished j env c (touched, some e) s ne = refl
  after_release-unfinished j env c (true, none) s ne = refl
  after_release-unfinished j env c (false, none) s ne = absurd (ne refl)

  -- The state in which the resources are looked at.
  abbrev pub concluded : JobManager Time → Environment Time → Sys W (Call Time) → Sys W (Call Time)
  concluded j env s = (result L api.jobs j env.metadata.name [] s).1

  after_release-Stopped :
      (kind : Kind) (j : JobManager Time) (env : Environment Time) (c : Condition Time)
      (s : Sys W (Call Time))
      → Stopped kind s.calls (release_providers L api env s)
      → completes
          (after_release L api j env c
            (release_providers L api env s).0
            (release_providers L api env s).1).1.calls
        ≡ completes s.calls
  after_release-Stopped kind j env c s stopped =
      ap completes (after_release-unfinished j env c _ _ stopped.unfinished)
      ∙ Stopped-completes kind s.calls _ stopped

  start_release-completes :
      (j : JobManager Time) (env : Environment Time) (reason : String) (s : Sys W (Call Time))
      → env.completion_time ≡ none
      → completes (follow_release L api JobStatus.none j env reason s).1.calls ≡ completes s.calls
  unfolding follow_release
  start_release-completes j env reason s running =
      let made = create L api.jobs job_log (release_job L api env) s in
      elim (Bool-cases (is_zero env.metadata.deletion_timestamp)) [
        | inl kept ↦ rw (kept, follow_release) refl
        | inr leaving ↦
            rw (leaving, follow_release)
              (after_create-completes env reason made.0 made.1 running
                ∙ create-completes L api env s)
      ]

  follow_release-completes :
      (js : JobStatus) (j : JobManager Time) (env : Environment Time) (reason : String)
      (s : Sys W (Call Time))
      → env.completion_time ≡ none
      → completes s.calls < completes (follow_release L api js j env reason s).1.calls
      → (js ≡ JobStatus.successful) × AllFree L api env (concluded j env s)
  unfolding follow_release
  follow_release-completes JobStatus.failed j env reason s running more =
      same_completes
        (set_and_update-completes L api env _ _ running
          ∙ ap completes (result-calls L api.jobs j env.metadata.name _ s))
        more
  follow_release-completes JobStatus.active j env reason s running more =
      same_completes (set_and_update-completes L api env _ s running) more
  follow_release-completes JobStatus.none j env reason s running more =
      same_completes (start_release-completes j env reason s running) more
  follow_release-completes JobStatus.successful j env reason s running more =
      let same = ap completes (result-calls L api.jobs j env.metadata.name [] s) in
      elim (release_providers_lem L api env (concluded j env s)) [
        | inl (_, stopped) ↦
            same_completes (after_release-Stopped execution_space_kind j env _ _ stopped ∙ same)
              more
        | inr (inl (_, _, stopped)) ↦
            same_completes (after_release-Stopped log_area_kind j env _ _ stopped ∙ same) more
        | inr (inr (inl (_, _, _, stopped))) ↦
            same_completes (after_release-Stopped iut_kind j env _ _ stopped ∙ same) more
        | inr (inr (inr (free, _, _))) ↦ (refl, free)
      ]

  -- The state in which the resources are looked at, if the jobs have succeeded.
  abbrev pub asked_at : Environment Time → Sys W (Call Time) → Sys W (Call Time)
  asked_at env s = let r = status L api.jobs (manager env) s in concluded r.0.1 env r.1

  after_status-completes :
      (env : Environment Time) (r : Result E JobStatus) (j : JobManager Time)
      (s : Sys W (Call Time))
      → env.completion_time ≡ none
      → completes s.calls < completes (after_status L api env r j s).1.calls
      → (r ≡ ok JobStatus.successful) × AllFree L api env (concluded j env s)
  unfolding after_status
  after_status-completes env (err e) j s running more = same_completes refl more
  after_status-completes env (ok js) j s running more =
      let (successful, free) =
        follow_release-completes js j env (kept_reason L api env) s running more in
      (ap ok successful, free)

  reconcile_release-completes :
      (env : Environment Time) (s : Sys W (Call Time))
      → env.completion_time ≡ none
      → completes s.calls < completes (reconcile_release L api env s).1.calls
      → ((status L api.jobs (manager env) s).0.0 ≡ ok JobStatus.successful)
        × AllFree L api env (asked_at env s)
  unfolding reconcile_release
  reconcile_release-completes env s running more =
      let r = status L api.jobs (manager env) s in
      let (_, _, quiet) = status_lem L api.jobs (manager env) s in
      let same = ap completes quiet in
      after_status-completes env r.0.0 r.0.1 r.1 running (omega (arith, same, more))

  after_find-completes :
      (env : Environment Time) (c : Option (Condition Time)) (s : Sys W (Call Time))
      → env.completion_time ≡ none
      → completes s.calls < completes (after_find L api env c s).1.calls
      → ((status L api.jobs (manager env) s).0.0 ≡ ok JobStatus.successful)
        × AllFree L api env (asked_at env s)
  unfolding after_find update_status
  after_find-completes env none s running more = absurd (ground arith)
  after_find-completes env (some c) s running more =
      elim (Bool-cases (
        is_zero env.metadata.deletion_timestamp
        && not (L.contains_finalizer env.metadata.finalizers release_finalizer))) [
          | inl unmarked ↦ same_completes refl (rw (unmarked, after_find) at more)
          | inr marked ↦
              elim (Bool-cases (is_status_reason L env.conditions status_active reason_pending)) [
                | inl pending ↦
                    same_completes (reconcile_environment-completes L api env running s)
                      (rw (pending, after_find) at (rw (marked, after_find) at more))
                | inr used ↦
                    reconcile_release-completes env s running
                      (rw (used, after_find) at (rw (marked, after_find) at more))
              ]
        ]

  -- If a reconciliation of an environment that has no completion time sends a status with one, then the
  -- status of its release jobs is successful, and its execution space, its log area and its IUT are all
  -- gone or without the release finalizer.
  pub reconcile-completes :
      (env : Environment Time) (s : Sys W (Call Time))
      → env.completion_time ≡ none
      → completes s.calls < completes (reconcile L api env s).1.calls
      → ((status L api.jobs (manager env) s).0.0 ≡ ok JobStatus.successful)
        × AllFree L api env (asked_at env s)
  unfolding reconcile
  reconcile-completes env s =
      after_find-completes env (L.find_status_condition env.conditions status_active) s
