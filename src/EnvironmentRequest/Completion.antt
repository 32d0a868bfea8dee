-- ===== src/EnvironmentRequest/Completion.antt =====
-- What the reconciler does with a request that has a completion time.
use etos.Prelude.{
  ◌≡◌, ◌⊎◌, refl, sym, ◌∙◌, subst, ap, true, false, Option, none, some, List, [], ◌∷◌, ◌++◌, arith,
  inl, inr, if◌then◌else◌, Bool-cases,
}
use etos.Kube.{ObjectMeta, Library}
use etos.Kube.Monad.{Sys, Result, ok, err, M, logged}
use etos.Jobs.Deletion.{delete-new_job}
use etos.Api.{EnvironmentRequest}
use etos.Controller.{owned_by_environment, done}
use etos.EnvironmentRequest.Types.{
  Kind, iuts, log_areas, execution_spaces, EnvironmentRequestApi, Call, updated, updated_status,
  deleted, created_job, deleted_job, job_log,
}
use etos.EnvironmentRequest.Release.{
  label_request_id, unless_error, of_items, delete_unowned, cleanup_kind, cleanup_unused,
}
use etos.EnvironmentRequest.{owner_key, by_completion, reconcile_existing}

-- The calls but for the deletions of resources: the updates and what concerns jobs.
abbrev pub others : {Time : Type 0} → List (Call Time) → List (Call Time)
others [] = []
others (deleted kind name ∷ calls) = others calls
others (updated er ∷ calls) = updated er ∷ others calls
others (updated_status er ∷ calls) = updated_status er ∷ others calls
others (created_job spec ∷ calls) = created_job spec ∷ others calls
others (deleted_job name ∷ calls) = deleted_job name ∷ others calls

-- The resources without an Environment among their owners.
abbrev pub unowned : {Time : Type 0} → List (ObjectMeta Time) → List (ObjectMeta Time)
unowned [] = []
unowned (object ∷ objects) =
    let rest = unowned objects in
    if owned_by_environment object.owner_references then rest else object ∷ rest

-- Their deletions.
abbrev pub deletions : {Time : Type 0} → Kind → List (ObjectMeta Time) → List (Call Time)
deletions kind [] = []
deletions kind (object ∷ objects) = deleted kind object.name ∷ deletions kind objects

-- A deletion was sent for the unowned resources, from the first on: for all of them, or up to the one
-- that gave an error.
pub record Cleaned {E Time : Type 0} (kind : Kind) (objects : List (ObjectMeta Time)) (e : Option E)
    (before after : List (Call Time)) : Type 0 where
  pub tried : List (ObjectMeta Time)
  pub left : List (ObjectMeta Time)
  pub parts : tried ++ left ≡ unowned objects
  pub sent : after ≡ logged (deletions kind tried) before
  pub complete : (left ≡ []) ⊎ ((x : E) × (e ≡ some x))

kept_Cleaned :
    {E Time : Type 0} (kind : Kind) (object : ObjectMeta Time) {objects : List (ObjectMeta Time)}
    {e : Option E} {before after : List (Call Time)}
    → owned_by_environment object.owner_references ≡ true
    → Cleaned kind objects e before after
    → Cleaned kind (object ∷ objects) e before after
kept_Cleaned kind object owned c = record {
  tried = c.tried;
  left = c.left;
  parts = c.parts ∙ ground arith;
  sent = c.sent;
  complete = c.complete;
}

deleted_Cleaned :
    {E Time : Type 0} (kind : Kind) (object : ObjectMeta Time) {objects : List (ObjectMeta Time)}
    {e : Option E} {before after : List (Call Time)}
    → owned_by_environment object.owner_references ≡ false
    → Cleaned kind objects e (deleted kind object.name ∷ before) after
    → Cleaned kind (object ∷ objects) e before after
deleted_Cleaned kind object free c = record {
  tried = object ∷ c.tried;
  left = c.left;
  parts = ap (λ r. object ∷ r) c.parts ∙ ground arith;
  sent = c.sent;
  complete = c.complete;
}

stopped_Cleaned :
    {E Time : Type 0} (kind : Kind) (objects : List (ObjectMeta Time)) (e : E)
    {log : List (Call Time)}
    → Cleaned kind objects (some e) log log
stopped_Cleaned kind objects e = record {
  tried = [];
  left = unowned objects;
  parts = refl;
  sent = refl;
  complete = inr (e, refl);
}

module _ {W E Time : Type 0} where
  unless_error-Cleaned :
      (kind : Kind) (object : ObjectMeta Time) (objects : List (ObjectMeta Time))
      → owned_by_environment object.owner_references ≡ false
      → (e : Option E) (log : List (Call Time)) (s : Sys W (Call Time))
        (rest : M W (Call Time) (Option E))
      → s.calls ≡ deleted kind object.name ∷ log
      → Cleaned kind objects (rest s).0 s.calls (rest s).1.calls
      → Cleaned kind
          (object ∷ objects)
          (unless_error e rest s).0
          log
          (unless_error e rest s).1.calls
  unless_error-Cleaned kind object objects free none log s rest sent c =
      deleted_Cleaned kind object free
        (subst (λ b. Cleaned kind objects (rest s).0 b (rest s).1.calls) sent c)
  unless_error-Cleaned kind object objects free (some x) log s rest sent c =
      deleted_Cleaned kind object free
        (subst (λ b. Cleaned kind objects (some x) b s.calls) sent (stopped_Cleaned kind objects x))

  unless_error-others :
      (e : Option E) (s : Sys W (Call Time)) (rest : M W (Call Time) (Option E))
      → others (rest s).1.calls ≡ others s.calls
      → others (unless_error e rest s).1.calls ≡ others s.calls
  unless_error-others none s rest same = same
  unless_error-others (some x) s rest same = refl

  of_items-others :
      {A : Type 0} (f : List A → M W (Call Time) (Option E))
      → ((items : List A) (s : Sys W (Call Time)) → others (f items s).1.calls ≡ others s.calls)
      → (r : Result E (List A)) (s : Sys W (Call Time))
      → others (of_items r f s).1.calls ≡ others s.calls
  of_items-others f same (err e) s = refl
  of_items-others f same (ok items) s = same items s

logged-others :
    {Time : Type 0} (kind : Kind) (objects : List (ObjectMeta Time)) (log : List (Call Time))
    → others (logged (deletions kind objects) log) ≡ others log
logged-others kind [] log = refl
logged-others kind (object ∷ objects) log =
    logged-others kind objects (deleted kind object.name ∷ log)

module _ {W E Time : Type 0} (L : Library E Time) (api : EnvironmentRequestApi W E Time) where
  -- The clean-up of a list of resources sends deletions for those that no Environment owns, in their
  -- order and nothing else: for all of them, or, with an error, for those up to an error.
  pub delete_unowned-Cleaned :
      (kind : Kind) (objects : List (ObjectMeta Time)) (s : Sys W (Call Time))
      → Cleaned kind objects
          (delete_unowned L api kind objects s).0
          s.calls
          (delete_unowned L api kind objects s).1.calls
  unfolding delete_unowned
  delete_unowned-Cleaned kind [] s = record {
    tried = [];
    left = [];
    parts = refl;
    sent = refl;
    complete = inl refl;
  }
  delete_unowned-Cleaned kind (object ∷ objects) s =
      let sent = api.delete kind object s.server in
      let after : Sys W (Call Time) = record {
        server = sent.1;
        calls = deleted kind object.name ∷ s.calls;
      } in
      elim (Bool-cases (owned_by_environment object.owner_references)) [
        | inl owned ↦
            rw (owned, delete_unowned)
              (kept_Cleaned kind object owned (delete_unowned-Cleaned kind objects s))
        | inr free ↦
            rw (free, delete_unowned)
              (unless_error-Cleaned kind object objects free sent.0 s.calls after
                (delete_unowned L api kind objects) refl
                (delete_unowned-Cleaned kind objects after))
      ]

  delete_unowned-others :
      (kind : Kind) (objects : List (ObjectMeta Time)) (s : Sys W (Call Time))
      → others (delete_unowned L api kind objects s).1.calls ≡ others s.calls
  delete_unowned-others kind objects s =
      let c = delete_unowned-Cleaned kind objects s in
      ap others c.sent ∙ logged-others kind c.tried s.calls

  cleanup_kind-others :
      (er : EnvironmentRequest Time) (kind : Kind) (s : Sys W (Call Time))
      → others (cleanup_kind L api er kind s).1.calls ≡ others s.calls
  unfolding cleanup_kind
  cleanup_kind-others er kind s =
      of_items-others (delete_unowned L api kind) (delete_unowned-others kind)
        (api.list kind er.metadata.namespace label_request_id er.spec.id s.server).0
        (record s {
          server = (api.list kind er.metadata.namespace label_request_id er.spec.id s.server).1;
        })

  cleanup_unused-others :
      (er : EnvironmentRequest Time) (s : Sys W (Call Time))
      → others (cleanup_unused L api er s).1.calls ≡ others s.calls
  unfolding cleanup_unused
  cleanup_unused-others er s =
      let of_iuts = cleanup_kind L api er iuts s in
      let of_spaces = cleanup_kind L api er execution_spaces of_iuts.1 in
      unless_error-others of_iuts.0 of_iuts.1 _ (
        unless_error-others of_spaces.0 of_spaces.1 _ (cleanup_kind-others er log_areas of_spaces.1)
        ∙ cleanup_kind-others er execution_spaces of_iuts.1)
      ∙ cleanup_kind-others er iuts s

  pub by_completion-completed :
      (er : EnvironmentRequest Time) (t : Time) (s : Sys W (Call Time))
      → ((by_completion L api er (some t) s).0 ≡ (done, none))
        × (others (by_completion L api er (some t) s).1.calls ≡ others s.calls)
  unfolding by_completion
  by_completion-completed er t s = (
    refl,
    rw (delete-new_job L api.jobs job_log owner_key er.metadata.name er.metadata.namespace s)
        (cleanup_unused-others er s),
  )

  -- A request with a completion time is only cleaned up.
  pub reconcile_existing-completed :
      (er : EnvironmentRequest Time) (t : Time) (s : Sys W (Call Time))
      → er.completion_time ≡ some t
      → ((reconcile_existing L api er s).0 ≡ (done, none))
        × (others (reconcile_existing L api er s).1.calls ≡ others s.calls)
  unfolding reconcile_existing
  reconcile_existing-completed er t s completed =
      subst
        (λ (o : Option Time).
          ((by_completion L api er o s).0 ≡ (done, none))
          × (others (by_completion L api er o s).1.calls ≡ others s.calls))
        (sym completed) (by_completion-completed er t s)
