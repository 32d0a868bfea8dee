-- ===== src/EnvironmentRequest/Ignores.antt =====
-- Views of the log that the deletions and the statuses of a release do not change.
use etos.Prelude.{◌≡◌, refl, ◌∙◌, ap, none, some, String, List, [], ◌∷◌, inl, inr, Bool-cases}
use etos.Kube.{Condition, ObjectMeta, Library, condition, is_zero}
use etos.Kube.Monad.{Sys, Result, ok, err, logged}
use etos.Api.{EnvironmentRequest}
use etos.Controller.{is_status_reason}
use etos.Controller.Reasons.{status_ready, reason_failed}
use etos.EnvironmentRequest.Types.{
  Kind, environments, iuts, log_areas, execution_spaces, EnvironmentRequestApi, Call,
  updated_status, deleted,
}
use etos.EnvironmentRequest.Release.{
  label_id, count_items, delete_all, delete_kind, announce_release,
}
use etos.EnvironmentRequest.Deleting.{pending, delete_all-calls}
use etos.EnvironmentRequest.Deletion.{after_environments, after_iuts, after_log_areas, after_spaces}

-- A view of the log that neither deletions nor statuses change.
pub record Ignores {Time X : Type 0} (f : List (Call Time) → X) : Type 0 where
  pub of_deleted :
      (kind : Kind) (name : String) (log : List (Call Time)) → f (deleted kind name ∷ log) ≡ f log
  pub of_status :
      (er : EnvironmentRequest Time) (log : List (Call Time)) → f (updated_status er ∷ log) ≡ f log

module _ {W E Time X : Type 0} (L : Library E Time) (api : EnvironmentRequestApi W E Time)
    (f : List (Call Time) → X) (ignores : Ignores f) where
  pending-Ignores :
      (kind : Kind) (objects : List (ObjectMeta Time)) (log : List (Call Time))
      → f (logged (pending kind objects) log) ≡ f log
  pending-Ignores kind [] log = refl
  pending-Ignores kind (object ∷ objects) log =
      elim (Bool-cases (is_zero object.deletion_timestamp)) [
        | inl fresh ↦ rw fresh (
            pending-Ignores kind objects (deleted kind object.name ∷ log)
            ∙ ignores.of_deleted kind object.name log)
        | inr going ↦ rw going (pending-Ignores kind objects log)
      ]

  count_items-Ignores :
      (kind : Kind) (r : Result E (List (ObjectMeta Time))) (s : Sys W (Call Time))
      → f (count_items r (λ items. delete_all L api kind items none) s).1.calls ≡ f s.calls
  count_items-Ignores kind (ok items) s =
      ap f (delete_all-calls L api kind items none s) ∙ pending-Ignores kind items s.calls
  count_items-Ignores kind (err e) s = refl

  delete_kind-Ignores :
      (er : EnvironmentRequest Time) (kind : Kind) (s : Sys W (Call Time))
      → f (delete_kind L api er kind s).1.calls ≡ f s.calls
  unfolding delete_kind
  delete_kind-Ignores er kind s =
      count_items-Ignores kind
        (api.list kind er.metadata.namespace label_id er.spec.identifier s.server).0
        (record s {
          server = (api.list kind er.metadata.namespace label_id er.spec.identifier s.server).1;
        })

  pub after_spaces-Ignores :
      (er : EnvironmentRequest Time) (s : Sys W (Call Time))
      → f (after_spaces L api er s).calls ≡ f s.calls
  after_spaces-Ignores er s =
      delete_kind-Ignores er execution_spaces (after_log_areas L api er s)
      ∙ delete_kind-Ignores er log_areas (after_iuts L api er s)
      ∙ delete_kind-Ignores er iuts (after_environments L api er s)
      ∙ delete_kind-Ignores er environments s

  -- The condition Ready that announces the release.
  abbrev announcement : EnvironmentRequest Time → Condition Time
  announcement er = elim (L.find_status_condition er.conditions status_ready) [
    | none ↦ condition L status_ready "False" "Unknown" "Releasing environment"
    | some c ↦ condition L c.kind c.status c.reason "Releasing environment"
  ]

  pub announce_release-Ignores :
      (er : EnvironmentRequest Time) (s : Sys W (Call Time))
      → f (announce_release L api er s).1.calls ≡ f s.calls
  unfolding announce_release
  announce_release-Ignores er s =
      let t = (api.now s.server).0 in
      elim (Bool-cases (is_status_reason L er.conditions status_ready reason_failed)) [
        | inl bad ↦ rw (bad, announce_release) refl
        | inr good ↦
            elim (Bool-cases (L.set_status_condition t er.conditions (announcement er)).1) [
              | inl changed ↦
                  rw (good, announce_release)
                    (rw (changed, announce_release) (ignores.of_status _ s.calls))
              | inr same ↦ rw (good, announce_release) (rw (same, announce_release) refl)
            ]
      ]
