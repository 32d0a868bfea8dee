-- ===== src/EnvironmentRequest/Release.antt =====
-- internal/controller/environmentrequest_controller.go: the clean-up after a request has completed, and
-- the release of what belongs to a request that is being deleted.
use etos.Prelude.{
  ℕ, ◌+◌, ◌==◌, true, false, Option, none, some, String, List, [], ◌∷◌, length, if◌then◌else◌,
}
use etos.Kube.{Condition, ObjectMeta, Library, condition, is_zero}
use etos.Kube.Monad.{Result, ok, err, M, ◌>>=◌, pure, ask, tell}
use etos.Api.{EnvironmentRequest}
use etos.Controller.{
  release_finalizer, owned_by_environment, Outcome, update_outcome, done, requeue, requeue_after,
  is_status_reason,
}
use etos.Controller.Reasons.{status_ready, reason_failed}
use etos.EnvironmentRequest.Types.{
  Kind, environments, iuts, log_areas, execution_spaces, EnvironmentRequestApi, Call,
}

abbrev pub label_id : String
label_id = "etos.eiffel-community.github.io/id"

abbrev pub label_request_id : String
label_request_id = "etos.eiffel-community.github.io/environment-request-id"

module _ {W C E : Type 0} where
  -- An early return of an error.
  abbrev pub unless_error : Option E → M W C (Option E) → M W C (Option E)
  unless_error (some e) rest = pure (some e)
  unless_error none rest = rest

  -- The number of items that were listed, with the error.
  abbrev pub count_items :
      {A : Type 0} → Result E (List A) → (List A → M W C (Option E)) → M W C (ℕ × Option E)
  count_items (err e) f = pure (0, some e)
  count_items (ok items) f = f items >>= λ e. pure (length items, e)

  abbrev pub of_items :
      {A : Type 0} → Result E (List A) → (List A → M W C (Option E)) → M W C (Option E)
  of_items (err e) f = pure (some e)
  of_items (ok items) f = f items

module _ {W E Time : Type 0} (L : Library E Time) (api : EnvironmentRequestApi W E Time) where
  -- One of the three loops of cleanupUnused, which stops at the first error.
  unfoldable pub delete_unowned : Kind → List (ObjectMeta Time) → M W (Call Time) (Option E)
  delete_unowned kind [] = pure none
  delete_unowned kind (object ∷ objects) = elim (owned_by_environment object.owner_references) [
    | true ↦ delete_unowned kind objects
    | false ↦ tell (Call.deleted kind object.name) (api.delete kind object) >>= λ e.
        unless_error e (delete_unowned kind objects)
  ]

  unfoldable pub cleanup_kind : EnvironmentRequest Time → Kind → M W (Call Time) (Option E)
  unfolding delete_unowned
  cleanup_kind er kind = do
    objects ← ask (api.list kind er.metadata.namespace label_request_id er.spec.id)
    of_items objects (delete_unowned kind)

  unfoldable pub cleanup_unused : EnvironmentRequest Time → M W (Call Time) (Option E)
  unfolding cleanup_kind
  cleanup_unused er = do
    of_iuts ← cleanup_kind er iuts
    unless_error of_iuts (
        cleanup_kind er execution_spaces >>= λ of_spaces.
        unless_error of_spaces (cleanup_kind er log_areas))

  -- What is gone already is no error; the others are joined.
  unfoldable pub join_deletion : Option E → Option E → Option E
  join_deletion all_err none = all_err
  join_deletion all_err (some e) = if L.is_not_found e then all_err else L.join all_err (some e)

  -- The loop of deleteEnvironments, deleteIuts, deleteLogAreas and deleteExecutionSpaces.
  unfoldable pub delete_all : Kind → List (ObjectMeta Time) → Option E → M W (Call Time) (Option E)
  unfolding join_deletion
  delete_all kind [] all_err = pure all_err
  delete_all kind (object ∷ objects) all_err = elim (is_zero object.deletion_timestamp) [
    | false ↦ delete_all kind objects all_err
    | true ↦ tell (Call.deleted kind object.name) (api.delete kind object) >>= λ e.
        delete_all kind objects (join_deletion all_err e)
  ]

  -- Those four functions: the number of resources listed, with the error. A list that failed has the
  -- number -1 in the source, which is never read, since then there is an error.
  unfoldable pub delete_kind : EnvironmentRequest Time → Kind → M W (Call Time) (ℕ × Option E)
  unfolding delete_all
  delete_kind er kind = do
    objects ← ask (api.list kind er.metadata.namespace label_id er.spec.identifier)
    count_items objects (λ items. delete_all kind items none)

  -- The request that an update returned, or what Reconcile returns.
  unfoldable pub stored_or :
      Result E (EnvironmentRequest Time) → Result (Outcome ℕ × Option E) (EnvironmentRequest Time)
  stored_or (ok stored) = ok stored
  stored_or (err e) = if L.is_conflict e then err (requeue, none) else err (done, some e)

  -- The update of the status at the start of reconcileDeletion: the request as the server then has it,
  -- or what Reconcile returns.
  unfoldable pub announce_release :
      EnvironmentRequest Time
      → M W (Call Time) (Result (Outcome ℕ × Option E) (EnvironmentRequest Time))
  unfolding stored_or
  announce_release er =
      let ready : Condition Time = elim (L.find_status_condition er.conditions status_ready) [
        | none ↦ condition L status_ready "False" "Unknown" "Releasing environment"
        | some c ↦ condition L c.kind c.status c.reason "Releasing environment"
      ] in
      if is_status_reason L er.conditions status_ready reason_failed
      then pure (ok er)
      else ask api.now >>= λ t.
          let set = L.set_status_condition t er.conditions ready in
          let er' = record er { conditions = set.0 } in
          if set.1
          then (tell (Call.updated_status er') (api.update_status er') >>= λ r. pure (stored_or r))
          else pure (ok er')

  -- The removal of the finalizer, after which the request disappears.
  unfoldable pub finalize : EnvironmentRequest Time → M W (Call Time) (Outcome ℕ × Option E)
  finalize er =
      let removed = L.remove_finalizer er.metadata.finalizers release_finalizer in
      if removed.1
      then (let metadata = er.metadata in
          let er' = record er { metadata = record metadata { finalizers = removed.0 } } in
          tell (Call.updated er') (api.update er') >>= λ r. pure (update_outcome L r))
      else pure (done, none)

  -- The end of reconcileDeletion: the joined error, and how many resources were listed.
  unfoldable pub settle :
      Option E → ℕ → EnvironmentRequest Time → M W (Call Time) (Outcome ℕ × Option E)
  unfolding finalize
  settle (some _) n er = pure (requeue, none)
  settle none n er = if n == 0 then finalize er else pure (requeue_after 5, none)

  -- reconcileDeletion after the status was updated.
  unfoldable pub release : EnvironmentRequest Time → M W (Call Time) (Outcome ℕ × Option E)
  unfolding delete_kind settle
  release er = do
    of_environments ← delete_kind er environments
    of_iuts ← delete_kind er iuts
    of_log_areas ← delete_kind er log_areas
    of_spaces ← delete_kind er execution_spaces
    settle
        (L.join (L.join (L.join (L.join none of_environments.1) of_iuts.1) of_log_areas.1)
          of_spaces.1)
        (of_environments.0 + of_iuts.0 + of_log_areas.0 + of_spaces.0) er

  -- What follows the update of the status.
  unfoldable pub after_announcement :
      Result (Outcome ℕ × Option E) (EnvironmentRequest Time)
      → M W (Call Time) (Outcome ℕ × Option E)
  unfolding release
  after_announcement (err r) = pure r
  after_announcement (ok stored) = release stored

  unfoldable pub reconcile_deletion :
      EnvironmentRequest Time → M W (Call Time) (Outcome ℕ × Option E)
  unfolding announce_release after_announcement
  reconcile_deletion er = announce_release er >>= λ announced. after_announcement announced
