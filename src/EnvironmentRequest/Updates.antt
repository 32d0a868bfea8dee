-- ===== src/EnvironmentRequest/Updates.antt =====
-- What the release of a request that is being deleted sends besides the deletions and the statuses.
use etos.Prelude.{
  ℕ, ◌≡◌, ◌⊎◌, refl, sym, subst, ◌∙◌, ap, false, Option, List, [], ◌∷◌, inl, inr, Bool-cases,
}
use etos.Kube.{Library, IsLawful}
use etos.Kube.Monad.{Sys, Result, ok, err}
use etos.Api.{EnvironmentRequest}
use etos.Controller.{Outcome, release_finalizer}
use etos.EnvironmentRequest.Types.{
  EnvironmentRequestApi, Call, updated, updated_status, deleted, created_job, deleted_job,
}
use etos.EnvironmentRequest.Release.{
  announce_release, finalize, release, after_announcement, reconcile_deletion,
}
use etos.EnvironmentRequest.Ignores.{Ignores, after_spaces-Ignores, announce_release-Ignores}
use etos.EnvironmentRequest.Deleting.{ok_injective}
use etos.EnvironmentRequest.Deletion.{NothingLeft, after_spaces, release_lem}

-- The requests that were updated, the last one first.
abbrev pub updates : {Time : Type 0} → List (Call Time) → List (EnvironmentRequest Time)
updates [] = []
updates (updated er ∷ calls) = er ∷ updates calls
updates (updated_status er ∷ calls) = updates calls
updates (deleted kind name ∷ calls) = updates calls
updates (created_job spec ∷ calls) = updates calls
updates (deleted_job name ∷ calls) = updates calls

-- The release has sent an update, which lets the request go: nothing of the request was left, and the
-- update is the only one.
pub record Freed {W E Time : Type 0} (L : Library E Time) (api : EnvironmentRequestApi W E Time)
    (er : EnvironmentRequest Time) (s : Sys W (Call Time)) (after : List (Call Time)) : Type 0 where
  -- The request as the announcement has left it.
  pub stored : EnvironmentRequest Time
  pub announced : (announce_release L api er s).0 ≡ ok stored
  pub nothing_left : NothingLeft L api stored (announce_release L api er s).1
  pub freed_request : EnvironmentRequest Time
  pub sent : updates after ≡ freed_request ∷ updates s.calls
  pub without : L.contains_finalizer freed_request.metadata.finalizers release_finalizer ≡ false

-- No update was sent: the announcement did not succeed, or something of the request was left, or the
-- request had lost the finalizer already.
pub record StillHeld {W E Time : Type 0} (L : Library E Time) (api : EnvironmentRequestApi W E Time)
    (er : EnvironmentRequest Time) (s : Sys W (Call Time)) (after : List (Call Time)) : Type 0 where
  pub quiet : updates after ≡ updates s.calls
  pub reason :
      (stored : EnvironmentRequest Time)
      → (announce_release L api er s).0 ≡ ok stored
      → NothingLeft L api stored (announce_release L api er s).1
      → L.contains_finalizer stored.metadata.finalizers release_finalizer ≡ false

updates-Ignores : {Time : Type 0} → Ignores {Time = Time} updates
updates-Ignores = record { of_deleted = λ kind name log. refl; of_status = λ er log. refl }

err_ok : {A B : Type 0} {a : A} {b : B} → ◌≡◌ {A = Result A B} (err a) (ok b) → ⊥
err_ok e = cc

module _ {W E Time : Type 0} (L : Library E Time) (api : EnvironmentRequestApi W E Time) where
  finalize-updates :
      (law : IsLawful L) (er : EnvironmentRequest Time) (s : Sys W (Call Time))
      → ((updates (finalize L api er s).1.calls ≡ updates s.calls)
          × (L.contains_finalizer er.metadata.finalizers release_finalizer ≡ false))
        ⊎ ((er' : EnvironmentRequest Time) × (updates (finalize L api er s).1.calls
              ≡ er' ∷ updates s.calls)
            × (L.contains_finalizer er'.metadata.finalizers release_finalizer ≡ false))
  unfolding finalize
  finalize-updates law er s =
      let metadata = er.metadata in
      let removed = L.remove_finalizer er.metadata.finalizers release_finalizer in
      elim (Bool-cases removed.1) [
        | inl changed ↦
            rw (changed, finalize)
              (inr (
                record er { metadata = record metadata { finalizers = removed.0 } },
                refl,
                law.contains-remove er.metadata.finalizers release_finalizer,
              ))
        | inr same ↦
            rw (same, finalize)
              (inl (refl, sym (law.remove_changed er.metadata.finalizers release_finalizer) ∙ same))
      ]

  release-StillHeld :
      (er stored : EnvironmentRequest Time) (s : Sys W (Call Time))
      → (announce_release L api er s).0 ≡ ok stored
      → updates (release L api stored (announce_release L api er s).1).1.calls ≡ updates s.calls
      → (NothingLeft L api stored (announce_release L api er s).1
          → L.contains_finalizer stored.metadata.finalizers release_finalizer ≡ false)
      → StillHeld L api er s (release L api stored (announce_release L api er s).1).1.calls
  release-StillHeld er stored s announced quiet reason = record {
    quiet = quiet;
    reason = λ other there left.
        let e = ok_injective (sym announced ∙ there) in
        subst
          (λ (x : EnvironmentRequest Time).
            L.contains_finalizer x.metadata.finalizers release_finalizer ≡ false)
          e
          (reason (
            subst
              (λ (x : EnvironmentRequest Time). NothingLeft L api x (announce_release L api er s).1)
              (sym e) left));
  }

  -- The release of the request as it is stored, after the announcement in the system `s`.
  release-Freed :
      (law : IsLawful L) (er stored : EnvironmentRequest Time) (s : Sys W (Call Time))
      → (announce_release L api er s).0 ≡ ok stored
      → StillHeld L api er s (release L api stored (announce_release L api er s).1).1.calls
        ⊎ Freed L api er s (release L api stored (announce_release L api er s).1).1.calls
  release-Freed law er stored s announced =
      let a = (announce_release L api er s).1 in
      let same : updates (after_spaces L api stored a).calls ≡ updates s.calls =
        after_spaces-Ignores L api updates updates-Ignores stored a
        ∙ announce_release-Ignores L api updates updates-Ignores er s in
      elim (release_lem L api law stored a) [
        | inl (nothing_left, done_with) ↦
            elim (finalize-updates law stored (after_spaces L api stored a)) [
              | inl (quiet, gone) ↦ inl (
                  release-StillHeld er stored s announced
                    (ap (λ x. updates x.1.calls) done_with ∙ quiet ∙ same) (λ _. gone))
              | inr (er', sent, without) ↦ inr (record {
                stored = stored;
                announced = announced;
                nothing_left = nothing_left;
                freed_request = er';
                sent = ap (λ x. updates x.1.calls) done_with ∙ sent ∙ ap (λ us. er' ∷ us) same;
                without = without;
              })
            ]
        | inr (more, inl again) ↦ inl (
            release-StillHeld er stored s announced (ap (λ x. updates x.1.calls) again ∙ same)
              (λ left. absurd (more left)))
        | inr (more, inr again) ↦ inl (
            release-StillHeld er stored s announced (ap (λ x. updates x.1.calls) again ∙ same)
              (λ left. absurd (more left)))
      ]

  after_announcement-Freed :
      (law : IsLawful L) (er : EnvironmentRequest Time) (s : Sys W (Call Time))
      (r : Result (Outcome ℕ × Option E) (EnvironmentRequest Time))
      → (announce_release L api er s).0 ≡ r
      → StillHeld L api er s (after_announcement L api r (announce_release L api er s).1).1.calls
        ⊎ Freed L api er s (after_announcement L api r (announce_release L api er s).1).1.calls
  unfolding after_announcement
  after_announcement-Freed law er s (err r) failed = inl (record {
    quiet = announce_release-Ignores L api updates updates-Ignores er s;
    reason = λ stored there nothing_left. absurd (err_ok (sym failed ∙ there));
  })
  after_announcement-Freed law er s (ok stored) announced = release-Freed law er stored s announced

  -- reconcileDeletion, whatever the API server answers, sends at most one update of the request but for
  -- its status. It sends one only after the announcement in the status succeeded and the API server
  -- listed no environment, IUT, log area or execution space of the request, and the update is without
  -- the release finalizer. It sends none only if one of these is not so, or if the request that the
  -- announcement has left had no release finalizer.
  pub reconcile_deletion-Freed :
      (law : IsLawful L) (er : EnvironmentRequest Time) (s : Sys W (Call Time))
      → StillHeld L api er s (reconcile_deletion L api er s).1.calls
        ⊎ Freed L api er s (reconcile_deletion L api er s).1.calls
  unfolding reconcile_deletion
  reconcile_deletion-Freed law er s =
      after_announcement-Freed law er s (announce_release L api er s).0 refl
