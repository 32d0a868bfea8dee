-- ===== src/EnvironmentRequest/Deleting.antt =====
-- The deletion of the resources of one kind, of a request that is being deleted.
use etos.Prelude.{◌≡◌, refl, ◌∙◌, ap, Option, none, List, [], ◌∷◌, length, arith, if◌then◌else◌}
use etos.Kube.{ObjectMeta, Library, is_zero}
use etos.Kube.Monad.{Sys, Result, ok, err, M, logged}
use etos.Api.{EnvironmentRequest}
use etos.EnvironmentRequest.Types.{Kind, EnvironmentRequestApi, Call, deleted}
use etos.EnvironmentRequest.Release.{label_id, count_items, join_deletion, delete_all, delete_kind}

-- The deletions of those resources that are not being deleted yet.
abbrev pub pending : {Time : Type 0} → Kind → List (ObjectMeta Time) → List (Call Time)
pending kind [] = []
pending kind (object ∷ objects) =
    let rest = pending kind objects in
    if is_zero object.deletion_timestamp then deleted kind object.name ∷ rest else rest

pub ok_injective : {E A : Type 0} {a b : A} → ◌≡◌ {A = Result E A} (ok a) (ok b) → a ≡ b
ok_injective e = cc

module _ {W E Time : Type 0} (L : Library E Time) (api : EnvironmentRequestApi W E Time) where
  pub delete_all-calls :
      (kind : Kind) (objects : List (ObjectMeta Time)) (e : Option E) (s : Sys W (Call Time))
      → (delete_all L api kind objects e s).1.calls ≡ logged (pending kind objects) s.calls
  unfolding delete_all
  delete_all-calls kind [] e s = refl
  delete_all-calls kind (object ∷ objects) e s =
      let sent = api.delete kind object s.server in
      ground (
        arith,
        delete_all-calls kind objects e s,
        delete_all-calls kind objects (join_deletion L api e sent.0)
            (record { server = sent.1; calls = deleted kind object.name ∷ s.calls }),
      )

  count_items-calls :
      (kind : Kind) (objects : List (ObjectMeta Time)) (r : Result E (List (ObjectMeta Time)))
      (s : Sys W (Call Time))
      → r ≡ ok objects
      → ((count_items r (λ items. delete_all L api kind items none) s).1.calls
          ≡ logged (pending kind objects) s.calls)
        × ((count_items r (λ items. delete_all L api kind items none) s).0.0 ≡ length objects)
  count_items-calls kind objects (ok items) s listed =
      let same = ok_injective listed in
      (
        delete_all-calls kind items none s ∙ ap (λ os. logged (pending kind os) s.calls) same,
        ap length same,
      )
  count_items-calls kind objects (err e) s listed = cc

  -- What the API server lists for a request that is being released.
  abbrev pub listing :
      EnvironmentRequest Time → Kind → Sys W (Call Time) → Result E (List (ObjectMeta Time))
  listing er kind s = (api.list kind er.metadata.namespace label_id er.spec.identifier s.server).0

  -- If the API server lists the resources, then one deletion is sent for each of them that is not being
  -- deleted yet, in their order and whatever the earlier ones answered, and the number is theirs.
  pub delete_kind-calls :
      (er : EnvironmentRequest Time) (kind : Kind) (objects : List (ObjectMeta Time))
      (s : Sys W (Call Time))
      → listing er kind s ≡ ok objects
      → ((delete_kind L api er kind s).1.calls ≡ logged (pending kind objects) s.calls)
        × ((delete_kind L api er kind s).0.0 ≡ length objects)
  unfolding delete_kind
  delete_kind-calls er kind objects s listed =
      count_items-calls kind objects
        (api.list kind er.metadata.namespace label_id er.spec.identifier s.server).0
        (record s {
          server = (api.list kind er.metadata.namespace label_id er.spec.identifier s.server).1;
        })
        listed

  count_items-empty :
      {A : Type 0} (r : Result E (List A)) (f : List A → M W (Call Time) (Option E))
      (s : Sys W (Call Time))
      → (count_items r f s).0.0 ≡ 0
      → (count_items r f s).0.1 ≡ none
      → r ≡ ok []
  count_items-empty (err e) f s zero nothing = cc
  count_items-empty (ok []) f s zero nothing = refl
  count_items-empty (ok (x ∷ items)) f s zero nothing = absurd (omega (arith, zero))

  pub delete_kind-empty :
      (er : EnvironmentRequest Time) (kind : Kind) (s : Sys W (Call Time))
      → (delete_kind L api er kind s).0.0 ≡ 0
      → (delete_kind L api er kind s).0.1 ≡ none
      → listing er kind s ≡ ok []
  unfolding delete_kind
  delete_kind-empty er kind s =
      count_items-empty (api.list kind er.metadata.namespace label_id er.spec.identifier s.server).0
        (λ items. delete_all L api kind items none)
        (record s {
          server = (api.list kind er.metadata.namespace label_id er.spec.identifier s.server).1;
        })

  count_items-nothing :
      (kind : Kind) (r : Result E (List (ObjectMeta Time))) (s : Sys W (Call Time))
      → r ≡ ok []
      → (count_items r (λ items. delete_all L api kind items none) s).0 ≡ (0, none)
  unfolding delete_all
  count_items-nothing kind (ok []) s listed = refl
  count_items-nothing kind (ok (x ∷ items)) s listed = cc
  count_items-nothing kind (err e) s listed = cc

  pub delete_kind-nothing :
      (er : EnvironmentRequest Time) (kind : Kind) (s : Sys W (Call Time))
      → listing er kind s ≡ ok []
      → (delete_kind L api er kind s).0 ≡ (0, none)
  unfolding delete_kind
  delete_kind-nothing er kind s =
      count_items-nothing kind
        (api.list kind er.metadata.namespace label_id er.spec.identifier s.server).0
        (record s {
          server = (api.list kind er.metadata.namespace label_id er.spec.identifier s.server).1;
        })
