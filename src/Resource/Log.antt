-- ===== src/Resource/Log.antt =====
-- What the parts of a resource's release do to the log of calls.
use etos.Prelude.{
  ℕ, suc, ◌≡◌, refl, Option, none, some, Bool-cases, inl, inr, List, [], ◌∷◌, arith, if◌then◌else◌,
}
use etos.Kube.{Condition, Library, is_zero}
use etos.Kube.Monad.{Sys, Result, Keeps, >>?-IsQuiet, ask, pure}
use etos.Jobs.Types.{JobStatus}
use etos.Jobs.{status}
use etos.Controller.Reasons.{reason_failed}
use etos.Environment.Types.{Kind, iut_kind, log_area_kind, execution_space_kind}
use etos.Resource.Types.{
  Managed, ResourceApi, Call, updated, updated_status, created_job, deleted_job,
}
use etos.Resource.Release.{
  manager, release_job, releaser_of, update_status, set_active, completion, complete, after_create,
  inactive,
}
use etos.Resource.{provider_finalizer}

-- How many jobs were created.
abbrev pub jobs_created : {Time : Type 0} → List (Call Time) → ℕ
jobs_created [] = 0
jobs_created (created_job spec ∷ calls) = suc (jobs_created calls)
jobs_created (updated r ∷ calls) = jobs_created calls
jobs_created (updated_status r ∷ calls) = jobs_created calls
jobs_created (deleted_job name ∷ calls) = jobs_created calls

-- How many statuses with a completion time were sent.
abbrev pub completes : {Time : Type 0} → List (Call Time) → ℕ
completes [] = 0
completes (updated_status r ∷ calls) =
    let rest = completes calls in if is_zero r.completion_time then rest else suc rest
completes (updated r ∷ calls) = completes calls
completes (created_job spec ∷ calls) = completes calls
completes (deleted_job name ∷ calls) = completes calls

module _ {E Time : Type 0} (L : Library E Time) where
  -- How many updates without the finalizer of the resource's controller were sent.
  abbrev pub freed : List (Call Time) → ℕ
  freed [] = 0
  freed (updated r ∷ calls) =
      let rest = freed calls in
      if L.contains_finalizer r.metadata.finalizers provider_finalizer then rest else suc rest
  freed (updated_status r ∷ calls) = freed calls
  freed (created_job spec ∷ calls) = freed calls
  freed (deleted_job name ∷ calls) = freed calls

module _ {W E Time : Type 0} (L : Library E Time) (api : ResourceApi W E Time) where
  pub release_job-calls :
      (kind : Kind) (r : Managed Time) (s : Sys W (Call Time))
      → (release_job L api kind r s).1.calls ≡ s.calls
  unfolding release_job
  release_job-calls kind r =
      >>?-IsQuiet (ask (api.get_provider r.metadata.namespace r.provider_id)) _ (λ s. refl)
        λ provider.
          >>?-IsQuiet (ask (api.get_request r.metadata.namespace r.environment_request)) _
            (λ s. refl)
            λ er.
              >>?-IsQuiet (pure (releaser_of L api kind r er provider)) _ (λ s. refl) λ spec s. refl

  -- Every job of the resource that was asked for has been successful, or there is none.
  abbrev pub answer : Kind → Managed Time → Sys W (Call Time) → Result E JobStatus
  answer kind r s = (status L api.jobs (manager kind r) s).0.0

  pub set_active-created :
      (r : Managed Time) (c : Condition Time) (e : Option E)
      → Keeps jobs_created (set_active L api r c e)
  unfolding set_active update_status
  set_active-created r c e s = ground arith

  pub set_active-completes :
      (r : Managed Time) (c : Condition Time) (e : Option E)
      → r.completion_time ≡ none
      → Keeps completes (set_active L api r c e)
  unfolding set_active update_status
  set_active-completes r c e unset s =
      let set = L.set_status_condition (api.now s.server).0 r.conditions c in
      elim (Bool-cases set.1) [
        | inl changed ↦ rw (changed, unset, set_active) refl
        | inr same ↦ rw (same, set_active) refl
      ]

  pub set_active-freed :
      (r : Managed Time) (c : Condition Time) (e : Option E)
      → Keeps (freed L) (set_active L api r c e)
  unfolding set_active update_status
  set_active-freed r c e s = ground arith

  pub after_create-created :
      (kind : Kind) (r : Managed Time) (e : Option E)
      → Keeps jobs_created (after_create L api kind r e)
  unfolding after_create
  after_create-created kind r none s = set_active-created r _ _ s
  after_create-created kind r (some e) s =
      ground
        (arith, set_active-created r (inactive L api reason_failed (L.error_text e)) (some e) s)

  pub after_create-completes :
      (kind : Kind) (r : Managed Time) (e : Option E)
      → r.completion_time ≡ none
      → Keeps completes (after_create L api kind r e)
  unfolding after_create
  after_create-completes kind r none unset s = set_active-completes r _ _ unset s
  after_create-completes kind r (some e) unset s = ground (
    arith,
    set_active-completes r (inactive L api reason_failed (L.error_text e)) (some e) unset s,
  )

  pub after_create-freed :
      (kind : Kind) (r : Managed Time) (e : Option E)
      → Keeps (freed L) (after_create L api kind r e)
  unfolding after_create
  after_create-freed kind r none s = set_active-freed r _ _ s
  after_create-freed kind r (some e) s =
      ground (arith, set_active-freed r (inactive L api reason_failed (L.error_text e)) (some e) s)

  pub completion-calls :
      (kind : Kind) (s : Sys W (Call Time)) → (completion L api kind s).1.calls ≡ s.calls
  unfolding completion
  completion-calls iut_kind s = refl
  completion-calls log_area_kind s = refl
  completion-calls execution_space_kind s = refl

  pub complete-created :
      (kind : Kind) (r : Managed Time) (c : Condition Time) (t : Option Time)
      → Keeps jobs_created (complete L api kind r c t)
  unfolding complete update_status
  complete-created kind r c t s = ground arith

  pub complete-freed :
      (kind : Kind) (r : Managed Time) (c : Condition Time) (t : Option Time)
      → Keeps (freed L) (complete L api kind r c t)
  unfolding complete update_status
  complete-freed kind r c t s = ground arith
