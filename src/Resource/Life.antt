-- ===== src/Resource/Life.antt =====
-- When a resource's controller creates the release job, lets the resource go, and completes it.
use etos.Prelude.{
  ◌+◌, ◌≤◌, ◌<◌, ◌≡◌, refl, subst, ap, ◌∙◌, false, Option, none, some, Bool-cases, inl, inr, List,
  [], ◌∷◌, arith, ◌~◌,
}
use etos.Kube.{Condition, Library, IsLawful, is_zero}
use etos.Kube.Monad.{Sys, Result, ok, err}
use etos.Jobs.Types.{JobStatus}
use etos.Jobs.{JobManager, create, status}
use etos.Jobs.Results.{result}
use etos.Jobs.Results.Quiet.{result-calls}
use etos.Jobs.Sorted.{status_lem}
use etos.Controller.{owned_by_environment}
use etos.Controller.Reasons.{status_active, reason_pending, reason_failed}
use etos.Environment.Types.{Kind}
use etos.Resource.Types.{
  Managed, ResourceApi, Call, updated_status, job_log, releasing, releaser_name,
}
use etos.Resource.Release.{
  manager, release_job, update_status, set_active, completion, end_condition, start_release,
  follow_release, after_status, reconcile_releaser, inactive,
}
use etos.Resource.{
  provider_finalizer, is_managed, follow_active, reconcile, reconcile_owned, reconcile_existing,
}
use etos.Resource.Log.{
  jobs_created, completes, freed, release_job-calls, answer, set_active-created,
  set_active-completes, set_active-freed, after_create-created, after_create-completes,
  after_create-freed, completion-calls, complete-created, complete-freed,
}

module _ {W E Time : Type 0} (L : Library E Time) (api : ResourceApi W E Time) where
  -- What a part of the release of a resource has done to the log.
  record IsRelease (r : Managed Time) (js : Result E JobStatus) (before after : List (Call Time))
      : Type 0 where
    once : jobs_created after ≤ jobs_created before + 1
    created :
        jobs_created before < jobs_created after
        → (is_zero r.metadata.deletion_timestamp ≡ false) × (js ≡ ok JobStatus.none)
    completed : completes before < completes after → js ≡ ok JobStatus.successful
    kept : freed L after ≡ freed L before

  quiet-IsRelease :
      (r : Managed Time) (js : Result E JobStatus) (before after : List (Call Time))
      → jobs_created after ≡ jobs_created before
      → completes after ≡ completes before
      → freed L after ≡ freed L before
      → IsRelease r js before after
  quiet-IsRelease r js before after c d f = record {
    once = omega (arith, c);
    created = λ more. absurd (omega (arith, c, more));
    completed = λ more. absurd (omega (arith, d, more));
    kept = f;
  }

  create-log :
      (kind : Kind) (r : Managed Time) (s : Sys W (Call Time))
      → (jobs_created (create L api.jobs job_log (release_job L api kind r) s).1.calls
          ≤ jobs_created s.calls + 1)
        × (completes (create L api.jobs job_log (release_job L api kind r) s).1.calls
            ≡ completes s.calls)
        × (freed L (create L api.jobs job_log (release_job L api kind r) s).1.calls
            ≡ freed L s.calls)
  unfolding create
  create-log kind r s = (
    ground (arith, release_job-calls L api kind r s),
    ground (arith, release_job-calls L api kind r s),
    ground (arith, release_job-calls L api kind r s),
  )

  start_release-IsRelease :
      (kind : Kind) (r : Managed Time) (s : Sys W (Call Time))
      → r.completion_time ≡ none
      → IsRelease r (ok JobStatus.none) s.calls (start_release L api kind r s).1.calls
  unfolding start_release
  start_release-IsRelease kind r s unset =
      let made = create L api.jobs job_log (release_job L api kind r) s in
      let (once, d, f) = create-log kind r s in
      elim (Bool-cases (is_zero r.metadata.deletion_timestamp)) [
        | inl stays ↦ rw (stays, start_release) (quiet-IsRelease r _ s.calls s.calls refl refl refl)
        | inr goes ↦
            rw (goes, start_release)
              (record {
                once = omega (arith, once, after_create-created L api kind r made.0 made.1);
                created = λ more. (goes, refl);
                completed = λ more. absurd (
                    omega
                      (arith, d, after_create-completes L api kind r made.0 unset made.1, more));
                kept = after_create-freed L api kind r made.0 made.1 ∙ f;
              })
      ]

  follow_release-IsRelease :
      (kind : Kind) (r : Managed Time) (js : JobStatus) (j : JobManager Time)
      (s : Sys W (Call Time))
      → r.completion_time ≡ none
      → IsRelease r (ok js) s.calls (follow_release L api kind r js j s).1.calls
  unfolding follow_release
  follow_release-IsRelease kind r JobStatus.failed j s unset =
      let res = result L api.jobs j (releaser_name kind) [] s in
      let quiet = result-calls L api.jobs j (releaser_name kind) [] s in
      let c = inactive L api reason_failed res.0.description in
      quiet-IsRelease r _ s.calls (set_active L api r c none res.1).1.calls
        (set_active-created L api r c none res.1 ∙ ap jobs_created quiet)
        (set_active-completes L api r c none unset res.1 ∙ ap completes quiet)
        (set_active-freed L api r c none res.1 ∙ ap (freed L) quiet)
  follow_release-IsRelease kind r JobStatus.successful j s unset =
      let res = result L api.jobs j (releaser_name kind) [] s in
      let quiet = result-calls L api.jobs j (releaser_name kind) [] s ∙ refl in
      let timed = completion L api kind res.1 in
      let same = completion-calls L api kind res.1 ∙ quiet in
      let c = end_condition L api res.0 in
      record {
        once = omega (arith, complete-created L api kind r c timed.0 timed.1, ap jobs_created same);
        created = λ more. absurd (
            omega
              (arith, complete-created L api kind r c timed.0 timed.1, ap jobs_created same, more));
        completed = λ more. refl;
        kept = complete-freed L api kind r c timed.0 timed.1 ∙ ap (freed L) same;
      }
  follow_release-IsRelease kind r JobStatus.active j s unset =
      let c = inactive L api reason_pending (releasing kind) in
      quiet-IsRelease r _ s.calls (set_active L api r c none s).1.calls
        (set_active-created L api r c none s) (set_active-completes L api r c none unset s)
        (set_active-freed L api r c none s)
  follow_release-IsRelease kind r JobStatus.none j s unset = start_release-IsRelease kind r s unset

  after_status-IsRelease :
      (kind : Kind) (r : Managed Time) (js : Result E JobStatus) (j : JobManager Time)
      (s : Sys W (Call Time))
      → r.completion_time ≡ none
      → IsRelease r js s.calls (after_status L api kind r js j s).1.calls
  unfolding after_status
  after_status-IsRelease kind r (err e) j s unset =
      quiet-IsRelease r (err e) s.calls s.calls refl refl refl
  after_status-IsRelease kind r (ok js) j s unset = follow_release-IsRelease kind r js j s unset

  reconcile_releaser-IsRelease :
      (kind : Kind) (r : Managed Time) (s : Sys W (Call Time))
      → r.completion_time ≡ none
      → IsRelease r (answer L api kind r s) s.calls (reconcile_releaser L api kind r s).1.calls
  unfolding reconcile_releaser
  reconcile_releaser-IsRelease kind r s unset =
      let a = status L api.jobs (manager kind r) s in
      let (_, _, quiet) = status_lem L api.jobs (manager kind r) s in
      subst
        (λ (log : List (Call Time)).
          IsRelease r (answer L api kind r s) log (reconcile_releaser L api kind r s).1.calls)
        quiet (after_status-IsRelease kind r a.0.0 a.0.1 a.1 unset)

  update_status-IsRelease :
      (r r' : Managed Time) (js : Result E JobStatus) (s : Sys W (Call Time))
      → r'.completion_time ≡ none
      → IsRelease r js s.calls (update_status L api r' s).1.calls
  unfolding update_status
  update_status-IsRelease r r' js s unset =
      quiet-IsRelease r js s.calls (updated_status r' ∷ s.calls) refl (rw unset refl) refl

  follow_active-IsRelease :
      IsLawful L
      → (kind : Kind) (r : Managed Time) (active : Option (Condition Time)) (s : Sys W (Call Time))
      → r.completion_time ≡ none
      → IsRelease r (answer L api kind r s) s.calls (follow_active L api kind r active s).1.calls
  unfolding follow_active
  follow_active-IsRelease law kind r none s unset =
      let set =
        L.set_status_condition (api.now s.server).0 r.conditions
          (inactive L api reason_pending "Waiting for environment") in
      update_status-IsRelease r (record r { conditions = set.0 }) (answer L api kind r s)
        (record s { server = (api.now s.server).1 }) unset
  follow_active-IsRelease law kind r (some active) s unset =
      let same = quiet-IsRelease r (answer L api kind r s) s.calls s.calls refl refl refl in
      elim (Bool-cases (active.reason ~ reason_failed)) [
        | inl bad ↦ rw (bad, follow_active) same
        | inr good ↦ elim (Bool-cases (is_zero r.metadata.deletion_timestamp)) [
          | inr goes ↦ rw (good, goes, follow_active) (reconcile_releaser-IsRelease kind r s unset)
          | inl stays ↦ elim (Bool-cases (is_managed L api r)) [
            | inl managed ↦ rw (good, stays, managed, follow_active) same
            | inr free ↦
                rw (good, stays, free, follow_active)
                  (quiet-IsRelease r (answer L api kind r s) s.calls _ refl refl
                    (rw (law.contains-add r.metadata.finalizers provider_finalizer) refl))
          ]
        ]
      ]

  reconcile_owned-IsRelease :
      IsLawful L
      → (kind : Kind) (r : Managed Time) (t : Option Time) (s : Sys W (Call Time)) → t ≡ none
      → r.completion_time ≡ none
      → IsRelease r (answer L api kind r s) s.calls (reconcile_owned L api kind r t s).1.calls
  unfolding reconcile_owned reconcile
  reconcile_owned-IsRelease law kind r (some t) s e unset = absurd cc
  reconcile_owned-IsRelease law kind r none s e unset =
      follow_active-IsRelease law kind r (L.find_status_condition r.conditions status_active) s
        unset

  reconcile_existing-IsRelease :
      IsLawful L
      → (kind : Kind) (r : Managed Time) (s : Sys W (Call Time))
      → owned_by_environment r.metadata.owner_references ≡ false
      → r.completion_time ≡ none
      → IsRelease r (answer L api kind r s) s.calls (reconcile_existing L api kind r s).1.calls
  unfolding reconcile_existing
  reconcile_existing-IsRelease law kind r s free unset =
      rw (free, reconcile_existing)
        (reconcile_owned-IsRelease law kind r r.completion_time s unset unset)

  -- If a reconciliation of a resource that no Environment owns and that has not completed creates a job,
  -- then it creates exactly one, the resource is being deleted, and the status of its jobs was that
  -- there are none.
  pub reconcile_existing-created :
      IsLawful L
      → (kind : Kind) (r : Managed Time) (s : Sys W (Call Time))
      → owned_by_environment r.metadata.owner_references ≡ false
      → r.completion_time ≡ none
      → jobs_created s.calls < jobs_created (reconcile_existing L api kind r s).1.calls
      → (jobs_created (reconcile_existing L api kind r s).1.calls ≡ jobs_created s.calls + 1)
        × (is_zero r.metadata.deletion_timestamp ≡ false)
        × (answer L api kind r s ≡ ok JobStatus.none)
  reconcile_existing-created law kind r s free unset more =
      let life = reconcile_existing-IsRelease law kind r s free unset in
      (omega (arith, life.once, more), (life.created more).0, (life.created more).1)

  -- If a reconciliation of a resource that no Environment owns gives it its completion time, then the
  -- status of its release jobs was that they were successful.
  pub reconcile_existing-completes :
      IsLawful L
      → (kind : Kind) (r : Managed Time) (s : Sys W (Call Time))
      → owned_by_environment r.metadata.owner_references ≡ false
      → r.completion_time ≡ none
      → completes s.calls < completes (reconcile_existing L api kind r s).1.calls
      → answer L api kind r s ≡ ok JobStatus.successful
  reconcile_existing-completes law kind r s free unset more =
      (reconcile_existing-IsRelease law kind r s free unset).completed more

  -- A reconciliation of a resource that no Environment owns and that has not completed sends no update
  -- of it without the finalizer of its controller.
  pub reconcile_existing-freed :
      IsLawful L
      → (kind : Kind) (r : Managed Time) (s : Sys W (Call Time))
      → owned_by_environment r.metadata.owner_references ≡ false
      → r.completion_time ≡ none
      → freed L (reconcile_existing L api kind r s).1.calls ≡ freed L s.calls
  reconcile_existing-freed law kind r s free unset =
      (reconcile_existing-IsRelease law kind r s free unset).kept
