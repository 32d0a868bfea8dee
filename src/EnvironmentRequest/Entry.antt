-- ===== src/EnvironmentRequest/Entry.antt =====
-- What Reconcile does with the request that it has asked for, over all its branches.
use etos.Prelude.{
  ℕ, ◌+◌, ◌<◌, ◌≡◌, refl, sym, ◌∙◌, ap, true, Option, none, some, String, List, [], ◌∷◌, arith, inl,
  inr, Bool-cases,
}
use etos.Kube.{Library, is_zero}
use etos.Kube.Monad.{Sys, Result, ok, err}
use etos.Api.{EnvironmentRequest}
use etos.Controller.{Outcome, release_finalizer, done}
use etos.Controller.Reasons.{status_ready}
use etos.EnvironmentRequest.Types.{
  environments, iuts, log_areas, execution_spaces, EnvironmentRequestApi, Call, updated,
  updated_status, deleted, created_job, deleted_job,
}
use etos.EnvironmentRequest.Quiet.{jobs_created}
use etos.EnvironmentRequest.Release.{
  announce_release, release, after_announcement, delete_kind, settle, finalize, reconcile_deletion,
}
use etos.EnvironmentRequest.Ignores.{Ignores, after_spaces-Ignores, announce_release-Ignores}
use etos.EnvironmentRequest.Starting.{
  MayStart, HasNotFailed, listed_jobs, checked, reconcile-created_once, reconcile-created,
}
use etos.EnvironmentRequest.Completion.{
  others, by_completion-completed, reconcile_existing-completed,
}
use etos.EnvironmentRequest.{
  by_completion, reconcile_existing, add_finalizer, after_found, reconcile_request,
}

jobs_created-others :
    {Time : Type 0} (log : List (Call Time)) → jobs_created (others log) ≡ jobs_created log
jobs_created-others [] = refl
jobs_created-others (updated er ∷ log) = jobs_created-others log
jobs_created-others (updated_status er ∷ log) = jobs_created-others log
jobs_created-others (deleted kind name ∷ log) = jobs_created-others log
jobs_created-others (created_job spec ∷ log) = omega (arith, jobs_created-others log)
jobs_created-others (deleted_job name ∷ log) = jobs_created-others log

jobs_created-Ignores : {Time : Type 0} → Ignores {Time = Time} jobs_created
jobs_created-Ignores = record { of_deleted = λ kind name log. refl; of_status = λ er log. refl }

module _ {W E Time : Type 0} (L : Library E Time) (api : EnvironmentRequestApi W E Time) where
  -- What a request must be for Reconcile to create a job for it; `s` is the system once it was asked for.
  pub record IsDue (er : EnvironmentRequest Time) (s : Sys W (Call Time)) : Type 0 where
    pub unfinished : er.completion_time ≡ none
    pub may_start : MayStart L er
    pub not_failed : HasNotFailed (L.find_status_condition er.conditions status_ready)
    pub no_jobs : listed_jobs L api er (checked L api er s) ≡ ok []

  settle-created :
      (e : Option E) (n : ℕ) (er : EnvironmentRequest Time) (s : Sys W (Call Time))
      → jobs_created (settle L api e n er s).1.calls ≡ jobs_created s.calls
  unfolding settle finalize
  settle-created (some e) n er s = refl
  settle-created none n er s = ground arith

  release-created :
      (er : EnvironmentRequest Time) (s : Sys W (Call Time))
      → jobs_created (release L api er s).1.calls ≡ jobs_created s.calls
  unfolding release
  release-created er s =
      let r1 = delete_kind L api er environments s in
      let r2 = delete_kind L api er iuts r1.1 in
      let r3 = delete_kind L api er log_areas r2.1 in
      let r4 = delete_kind L api er execution_spaces r3.1 in
      settle-created (L.join (L.join (L.join (L.join none r1.0.1) r2.0.1) r3.0.1) r4.0.1)
        (r1.0.0 + r2.0.0 + r3.0.0 + r4.0.0) er r4.1
      ∙ after_spaces-Ignores L api jobs_created jobs_created-Ignores er s

  after_announcement-created :
      (r : Result (Outcome ℕ × Option E) (EnvironmentRequest Time)) (s : Sys W (Call Time))
      → jobs_created (after_announcement L api r s).1.calls ≡ jobs_created s.calls
  unfolding after_announcement
  after_announcement-created (err r) s = refl
  after_announcement-created (ok stored) s = release-created stored s

  reconcile_deletion-created :
      (er : EnvironmentRequest Time) (s : Sys W (Call Time))
      → jobs_created (reconcile_deletion L api er s).1.calls ≡ jobs_created s.calls
  unfolding reconcile_deletion
  reconcile_deletion-created er s =
      after_announcement-created (announce_release L api er s).0 (announce_release L api er s).1
      ∙ announce_release-Ignores L api jobs_created jobs_created-Ignores er s

  -- If a job was created for a request, then it was one and the request was due.
  abbrev CreatedOnce : EnvironmentRequest Time → Sys W (Call Time) → List (Call Time) → Type 0
  CreatedOnce er s after =
      jobs_created s.calls < jobs_created after
      → (jobs_created after ≡ jobs_created s.calls + 1) × IsDue er s

  quiet-CreatedOnce :
      (er : EnvironmentRequest Time) (s : Sys W (Call Time)) (after : List (Call Time))
      → jobs_created after ≡ jobs_created s.calls
      → CreatedOnce er s after
  quiet-CreatedOnce er s after same more = absurd (omega (arith, same, more))

  by_completion-CreatedOnce :
      (er : EnvironmentRequest Time) (t : Option Time) (s : Sys W (Call Time))
      → er.completion_time ≡ t
      → CreatedOnce er s (by_completion L api er t s).1.calls
  unfolding by_completion
  by_completion-CreatedOnce er (some t) s completed more =
      quiet-CreatedOnce er s (by_completion L api er (some t) s).1.calls
        (sym (jobs_created-others (by_completion L api er (some t) s).1.calls)
          ∙ ap jobs_created (by_completion-completed L api er t s).1
          ∙ jobs_created-others s.calls)
        more
  by_completion-CreatedOnce er none s unfinished more =
      let (may_start, no_jobs, not_failed) = reconcile-created L api er s more in
      (
        omega (arith, more, reconcile-created_once L api er s),
        record {
          unfinished = unfinished;
          may_start = may_start;
          not_failed = not_failed;
          no_jobs = no_jobs;
        },
      )

  -- The same, with the finalizer that the request must have.
  abbrev HeldOnce : EnvironmentRequest Time → Sys W (Call Time) → List (Call Time) → Type 0
  HeldOnce er s after =
      jobs_created s.calls < jobs_created after
      → (jobs_created after ≡ jobs_created s.calls + 1)
        × (L.contains_finalizer er.metadata.finalizers release_finalizer ≡ true)
        × IsDue er s

  after_ok-HeldOnce :
      (er : EnvironmentRequest Time) (s : Sys W (Call Time))
      → HeldOnce er s (after_found L api (ok er) s).1.calls
  unfolding after_found reconcile_existing add_finalizer
  after_ok-HeldOnce er s =
      let due = by_completion-CreatedOnce er er.completion_time s refl in
      elim (Bool-cases (is_zero er.metadata.deletion_timestamp)) [
        | inl stays ↦
            elim (Bool-cases (L.contains_finalizer er.metadata.finalizers release_finalizer)) [
              | inl held ↦
                  rw (stays, held, after_found) (λ more. ((due more).0, refl, (due more).1))
              | inr free ↦ rw (stays, free, after_found) (λ more. absurd (omega (arith, more)))
            ]
        | inr goes ↦
            elim (Bool-cases (L.contains_finalizer er.metadata.finalizers release_finalizer)) [
              | inl held ↦
                  rw (goes, held, after_found)
                    (λ more. absurd (omega (arith, more, reconcile_deletion-created er s)))
              | inr free ↦
                  rw (goes, free, after_found)
                    (λ more. absurd (cc (goes, (due more).1.may_start.not_deleted)))
            ]
      ]

  after_found-created :
      (found : Result E (EnvironmentRequest Time)) (s : Sys W (Call Time))
      → jobs_created s.calls < jobs_created (after_found L api found s).1.calls
      → (er : EnvironmentRequest Time) × (found ≡ ok er)
        × (jobs_created (after_found L api found s).1.calls ≡ jobs_created s.calls + 1)
        × (L.contains_finalizer er.metadata.finalizers release_finalizer ≡ true)
        × IsDue er s
  unfolding after_found
  after_found-created (err e) s more = absurd (ground arith)
  after_found-created (ok er) s more =
      let (once, held, is_due) = after_ok-HeldOnce er s more in (er, refl, once, held, is_due)

  -- If Reconcile creates a provider job, then it creates exactly one, and the request that the API
  -- server returned is due: it is not being deleted, it has the release finalizer and no completion
  -- time, its condition Ready is there with a reason that is neither Failed nor Starting, and the API
  -- server lists no job of it after the check of the providers.
  pub reconcile_request-created :
      (namespace name : String) (s : Sys W (Call Time))
      → jobs_created s.calls < jobs_created (reconcile_request L api namespace name s).1.calls
      → (er : EnvironmentRequest Time) × ((api.get namespace name s.server).0 ≡ ok er)
        × (jobs_created (reconcile_request L api namespace name s).1.calls
            ≡ jobs_created s.calls + 1)
        × (L.contains_finalizer er.metadata.finalizers release_finalizer ≡ true)
        × IsDue er (record s { server = (api.get namespace name s.server).1 })
  unfolding reconcile_request
  reconcile_request-created namespace name s more =
      after_found-created (api.get namespace name s.server).0
        (record s { server = (api.get namespace name s.server).1 }) more

  completed_lem :
      (found : Result E (EnvironmentRequest Time)) (er : EnvironmentRequest Time) (t : Time)
      (s : Sys W (Call Time))
      → found ≡ ok er
      → er.completion_time ≡ some t
      → L.contains_finalizer er.metadata.finalizers release_finalizer
        ≡ is_zero er.metadata.deletion_timestamp
      → after_found L api found s ≡ reconcile_existing L api er s
  unfolding after_found
  completed_lem found er t s is completed plain =
      elim (Bool-cases (is_zero er.metadata.deletion_timestamp)) [
        | inl stays ↦ rw (is, after_found) (rw (stays, plain ∙ stays, after_found) refl)
        | inr goes ↦ rw (is, after_found) (rw (goes, plain ∙ goes, after_found) refl)
      ]

  -- A request with a completion time that is not being deleted and has the release finalizer, or that
  -- is being deleted and has it no more, is only cleaned up: Reconcile succeeds whatever the API server
  -- answers, updates nothing, and neither creates nor deletes a job. Its provider job stays.
  pub reconcile_request-completed :
      (namespace name : String) (er : EnvironmentRequest Time) (t : Time) (s : Sys W (Call Time))
      → (api.get namespace name s.server).0 ≡ ok er
      → er.completion_time ≡ some t
      → L.contains_finalizer er.metadata.finalizers release_finalizer
        ≡ is_zero er.metadata.deletion_timestamp
      → ((reconcile_request L api namespace name s).0 ≡ (done, none))
        × (others (reconcile_request L api namespace name s).1.calls ≡ others s.calls)
  unfolding reconcile_request
  reconcile_request-completed namespace name er t s is completed plain =
      let s' : Sys W (Call Time) = record s { server = (api.get namespace name s.server).1 } in
      let same = completed_lem (api.get namespace name s.server).0 er t s' is completed plain in
      let (outcome, quiet) = reconcile_existing-completed L api er t s' completed in
      (ap (λ x. x.0) same ∙ outcome, ap (λ x. others x.1.calls) same ∙ quiet)
