-- ===== src/Environment/Releasing.antt =====
-- The order in which an environment lets its resources go.
use etos.Prelude.{
  ◌≡◌, ◌≢◌, ◌⊎◌, inl, inr, refl, sym, subst, ◌∙◌, ap, Bool, true, false, not, Option, none, List,
  ◌∷◌, arith, Bool-cases,
}
use etos.Kube.{Library}
use etos.Kube.Monad.{Sys, Result, ok, err, M, pure}
use etos.Controller.{release_finalizer}
use etos.Environment.Types.{
  Environment, Kind, iut_kind, log_area_kind, execution_space_kind, Resource, EnvironmentApi, Call,
  updated_resource,
}
use etos.Environment.Resources.{get_resource, let_go, release_kind, release_providers}

-- A resource that is gone, or does not have the finalizer.
abbrev pub is_free : {E Time : Type 0} → Library E Time → Result E (Resource Time) → Bool
is_free L (err e) = L.is_not_found e
is_free L (ok r) = not (L.remove_finalizer r.metadata.finalizers release_finalizer).1

-- The release has stopped at a kind: with its update, or with the error of asking for it.
pub record Stopped {W E Time : Type 0} (kind : Kind) (before : List (Call Time))
    (after : (Bool × Option E) × Sys W (Call Time)) : Type 0 where
  pub sent :
      (after.1.calls ≡ before)
      ⊎ ((r : Resource Time) × (after.1.calls ≡ updated_resource kind r ∷ before))
  pub unfinished : after.0 ≢ (false, none)

module _ {W E Time : Type 0} (L : Library E Time) (api : EnvironmentApi W E Time) where
  let_go_lem :
      (kind : Kind) (r : Result E (Resource Time)) (rest : M W (Call Time) (Bool × Option E))
      (s : Sys W (Call Time))
      → ((is_free L r ≡ true) × (let_go L api kind r rest s ≡ rest s))
        ⊎ ((is_free L r ≡ false) × Stopped kind s.calls (let_go L api kind r rest s))
  unfolding let_go
  let_go_lem kind (err e) rest s = elim (Bool-cases (L.is_not_found e)) [
    | inl gone ↦ inl (gone, rw gone refl)
    | inr failed ↦
        inr (failed, rw (failed, let_go) (record { sent = inl refl; unfinished = λ h. cc }))
  ]
  let_go_lem kind (ok r) rest s =
      elim (Bool-cases (L.remove_finalizer r.metadata.finalizers release_finalizer).1) [
        | inl has ↦
            inr (
              ground arith,
              rw (has, let_go) (record { sent = inr (_, refl); unfinished = λ h. cc }),
            )
        | inr free ↦ inl (ground arith, rw (free, let_go) refl)
      ]

  -- What the API server answers for a resource, and the state after the question.
  abbrev pub answer : Environment Time → Kind → Sys W (Call Time) → Result E (Resource Time)
  answer env kind s = (get_resource L api env kind s).0

  abbrev pub asked : Environment Time → Kind → Sys W (Call Time) → Sys W (Call Time)
  asked env kind s = (get_resource L api env kind s).1

  release_kind_lem :
      (env : Environment Time) (kind : Kind) (rest : M W (Call Time) (Bool × Option E))
      (s : Sys W (Call Time))
      → ((is_free L (answer env kind s) ≡ true)
          × (release_kind L api env kind rest s ≡ rest (asked env kind s)))
        ⊎ ((is_free L (answer env kind s) ≡ false)
            × Stopped kind s.calls (release_kind L api env kind rest s))
  unfolding release_kind
  release_kind_lem env kind rest s = let_go_lem kind (answer env kind s) rest (asked env kind s)

  -- All three resources are gone or without the finalizer, as the API server answers in turn.
  pub record AllFree (env : Environment Time) (s : Sys W (Call Time)) : Type 0 where
    pub space : is_free L (answer env execution_space_kind s) ≡ true
    pub log_area : is_free L (answer env log_area_kind (asked env execution_space_kind s)) ≡ true
    pub iut :
        is_free L (answer env iut_kind (asked env log_area_kind (asked env execution_space_kind s)))
        ≡ true

  -- The resources are released in order, one at a time: the log area only once the execution space is
  -- free (gone or without the finalizer), the IUT only once both are. As long as one is not free, at most
  -- one update is sent, of the first that is not, and the release is not finished; once all are free,
  -- nothing is sent and it is finished.
  pub release_providers_lem :
      (env : Environment Time) (s : Sys W (Call Time))
      → let s' = asked env execution_space_kind s in
        let s'' = asked env log_area_kind s' in
        let out = release_providers L api env s in
        ((is_free L (answer env execution_space_kind s) ≡ false)
          × Stopped execution_space_kind s.calls out)
        ⊎ (((is_free L (answer env execution_space_kind s) ≡ true)
              × (is_free L (answer env log_area_kind s') ≡ false)
              × Stopped log_area_kind s.calls out)
            ⊎ (((is_free L (answer env execution_space_kind s) ≡ true)
                  × (is_free L (answer env log_area_kind s') ≡ true)
                  × (is_free L (answer env iut_kind s'') ≡ false)
                  × Stopped iut_kind s.calls out)
                ⊎ (AllFree env s × (out.0 ≡ (false, none)) × (out.1.calls ≡ s.calls))))
  unfolding release_providers
  release_providers_lem env s =
      let s' = asked env execution_space_kind s in
      let s'' = asked env log_area_kind s' in
      let third = release_kind L api env iut_kind (pure (false, none)) in
      let second = release_kind L api env log_area_kind third in
      elim (release_kind_lem env execution_space_kind second s) [
        | inr (f, stopped) ↦ inl (f, stopped)
        | inl (t, e) ↦ elim (release_kind_lem env log_area_kind third s') [
          | inr (f, stopped) ↦
              inr (inl (t, f, subst (λ o. Stopped log_area_kind s.calls o) (sym e) stopped))
          | inl (t2, e2) ↦ elim (release_kind_lem env iut_kind (pure (false, none)) s'') [
            | inr (f, stopped) ↦ inr (
                inr
                  (inl (t, t2, f, subst (λ o. Stopped iut_kind s.calls o) (sym (e ∙ e2)) stopped)))
            | inl (t3, e3) ↦ inr (
                inr (
                  inr (
                    record { space = t; log_area = t2; iut = t3 },
                    ap (λ o. o.0) (e ∙ e2 ∙ e3),
                    ap (λ o. o.1.calls) (e ∙ e2 ∙ e3),
                  )))
          ]
        ]
      ]
