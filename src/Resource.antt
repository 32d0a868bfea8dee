-- ===== src/Resource.antt =====
-- internal/controller/iut_controller.go, logarea_controller.go and executionspace_controller.go: the
-- reconcilers of the resources of an environment.
--
-- The three are the same but for the words and for the completion time of an Iut, so the definitions
-- take the kind. Reconcile is `reconcile_resource`, the method reconcile is `reconcile`. What the
-- cluster answers is `ResourceApi`. Logging and the registration of watches are left out.
pub mod Types
pub mod Release
pub mod Provider
pub mod Log
pub mod Life
mod Tests
use Types.{Managed, ResourceApi, Call, updated, updated_status, job_log, releasing}
use Release.{manager, error_of, update_status, inactive, reconcile_releaser}
use etos.Prelude.{
  ℕ, Bool, true, false, not, ◌&&◌, Option, none, some, String, List, if◌then◌else◌, ◌~◌,
}
use etos.Kube.{Condition, Library, condition, is_zero}
use etos.Kube.Monad.{Result, ok, err, M, ◌>>=◌, pure, ask, tell}
use etos.Jobs.{delete}
use etos.Controller.{Outcome, done, requeue, update_outcome, owned_by_environment, set_condition}
use etos.Controller.Reasons.{status_active, reason_active, reason_pending, reason_failed}
use etos.Environment.Types.{Kind, iut_kind, log_area_kind, execution_space_kind}

abbrev pub provider_finalizer : String
provider_finalizer = "etos.eiffel-community.github.io/managed-by-provider"

module _ {Time : Type 0} where
  abbrev pub with_finalizers : Managed Time → List String → Managed Time
  with_finalizers r fs =
      let metadata = r.metadata in record r { metadata = record metadata { finalizers = fs } }

module _ {W E Time : Type 0} (L : Library E Time) (api : ResourceApi W E Time) where
  -- The finalizer of the resource's controller is there.
  abbrev pub is_managed : Managed Time → Bool
  is_managed r = L.contains_finalizer r.metadata.finalizers provider_finalizer

  -- Its removal.
  unfoldable pub let_go : Managed Time → M W (Call Time) (Result E (Managed Time))
  let_go r =
      let r' = with_finalizers r (L.remove_finalizer r.metadata.finalizers provider_finalizer).0 in
      tell (updated r') (api.update r')

  -- The status of a resource that an Environment owns.
  unfoldable pub tell_in_use : Kind → Managed Time → M W (Call Time) (Outcome ℕ × Option E)
  unfolding update_outcome
  tell_in_use kind r =
      let c =
        if is_zero r.metadata.deletion_timestamp
        then condition L status_active "True" reason_active "In use"
        else inactive L api reason_pending (releasing kind) in
      set_condition L api.now r.conditions c >>= λ set.
      let r' = record r { conditions = set.0 } in
      if set.1
      then (tell (updated_status r') (api.update_status r') >>= λ a. pure (update_outcome L a))
      else pure (done, none)

  -- What follows the removal of the finalizer.
  unfoldable pub after_let_go :
      Kind → Result E (Managed Time) → M W (Call Time) (Outcome ℕ × Option E)
  unfolding tell_in_use update_outcome
  after_let_go kind (ok r) = tell_in_use kind r
  after_let_go kind (err e) = pure (update_outcome L {A = Managed Time} (err e))

  -- The branch of a resource that an Environment owns.
  unfoldable pub hand_over : Kind → Managed Time → M W (Call Time) (Outcome ℕ × Option E)
  unfolding let_go after_let_go
  hand_over kind r =
      if is_managed r then (let_go r >>= λ a. after_let_go kind a) else after_let_go kind (ok r)

  -- The last step of the branch of a completed resource: its jobs, by a new job manager. The error is
  -- ignored.
  unfoldable pub delete_jobs_of :
      Kind → Result E (Managed Time) → M W (Call Time) (Outcome ℕ × Option E)
  unfolding update_outcome
  delete_jobs_of kind (err e) = pure (update_outcome L {A = Managed Time} (err e))
  delete_jobs_of kind (ok r) = delete L api.jobs job_log (manager kind r) >>= λ _. pure (done, none)

  -- The branch of a resource that has a completion time.
  unfoldable pub reconcile_completed : Kind → Managed Time → M W (Call Time) (Outcome ℕ × Option E)
  unfolding let_go delete_jobs_of
  reconcile_completed kind r =
      if not (is_zero r.metadata.deletion_timestamp) && is_managed r
      then (let_go r >>= λ a. delete_jobs_of kind a)
      else delete_jobs_of kind (ok r)

  -- What follows the search for the condition Active.
  unfoldable pub follow_active :
      Kind → Managed Time → Option (Condition Time) → M W (Call Time) (Option E)
  unfolding update_status reconcile_releaser
  follow_active kind r none =
      set_condition L api.now r.conditions (inactive L api reason_pending "Waiting for environment")
      >>= λ set. update_status L api (record r { conditions = set.0 })
  follow_active kind r (some active) =
      if active.reason ~ reason_failed
      then pure none
      else if is_zero r.metadata.deletion_timestamp
      then (if is_managed r
          then pure none
          else (let r' =
                with_finalizers r (L.add_finalizer r.metadata.finalizers provider_finalizer) in
              tell (updated r') (api.update r') >>= λ a. pure (error_of a)))
      else reconcile_releaser L api kind r

  -- The method reconcile.
  unfoldable pub reconcile : Kind → Managed Time → M W (Call Time) (Option E)
  unfolding follow_active
  reconcile kind r = follow_active kind r (L.find_status_condition r.conditions status_active)

  -- What follows the method reconcile.
  unfoldable pub after_reconcile : Option E → Outcome ℕ × Option E
  after_reconcile none = (done, none)
  after_reconcile (some e) = if L.is_conflict e then (requeue, none) else (done, some e)

  -- The branches of a resource that no Environment owns, by its completion time.
  unfoldable pub reconcile_owned :
      Kind → Managed Time → Option Time → M W (Call Time) (Outcome ℕ × Option E)
  unfolding reconcile_completed reconcile after_reconcile
  reconcile_owned kind r (some _) = reconcile_completed kind r
  reconcile_owned kind r none = reconcile kind r >>= λ e. pure (after_reconcile e)

  -- Reconcile, from the check of the owners on.
  unfoldable pub reconcile_existing : Kind → Managed Time → M W (Call Time) (Outcome ℕ × Option E)
  unfolding hand_over reconcile_owned
  reconcile_existing kind r =
      if owned_by_environment r.metadata.owner_references
      then hand_over kind r
      else reconcile_owned kind r r.completion_time

  -- What follows the reading of the resource.
  unfoldable pub after_get : Kind → Result E (Managed Time) → M W (Call Time) (Outcome ℕ × Option E)
  unfolding reconcile_existing
  after_get kind (ok r) = reconcile_existing kind r
  after_get kind (err e) = if L.is_not_found e then pure (done, none) else pure (done, some e)

  -- Reconcile, by namespace and name.
  unfoldable pub reconcile_resource :
      Kind → String → String → M W (Call Time) (Outcome ℕ × Option E)
  unfolding after_get
  reconcile_resource kind namespace name =
      ask (api.get namespace name) >>= λ found. after_get kind found

  -- The instances of the method for a log area and for an execution space.
  unfoldable pub reconcile_log_area_state : Managed Time → M W (Call Time) (Option E)
  unfolding reconcile
  reconcile_log_area_state = reconcile log_area_kind

  unfoldable pub reconcile_execution_space_state : Managed Time → M W (Call Time) (Option E)
  unfolding reconcile
  reconcile_execution_space_state = reconcile execution_space_kind

  -- The three reconcilers.
  unfoldable pub reconcile_iut : String → String → M W (Call Time) (Outcome ℕ × Option E)
  unfolding reconcile_resource
  reconcile_iut = reconcile_resource iut_kind

  unfoldable pub reconcile_log_area : String → String → M W (Call Time) (Outcome ℕ × Option E)
  unfolding reconcile_resource
  reconcile_log_area = reconcile_resource log_area_kind

  unfoldable pub reconcile_execution_space :
      String → String → M W (Call Time) (Outcome ℕ × Option E)
  unfolding reconcile_resource
  reconcile_execution_space = reconcile_resource execution_space_kind
