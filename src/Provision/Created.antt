-- ===== src/Provision/Created.antt =====
-- Which environments Provision creates.
use etos.Prelude.{
  ℕ, zero, suc, ◌+◌, ◌≡◌, refl, sym, ◌∙◌, ap, Option, none, some, String, List, [], ◌∷◌, length,
  get_elem?,
}
use etos.Kube.Monad.{Sys, Result, ok, ◌>>=◌, pure, ask, logged, >>?-ok}
use etos.Api.{Test, EnvironmentRequest}
use etos.Provision.{
  Resource, NewEnvironment, Fault, Slot, slot_of, marshal, ProvisionApi, Json, lift, lift_error,
  new_environment, create_environment, create_environments,
}

-- An environment of the resources and the tests at an index.
pub record MadeOf (tests : List (List Test)) (iuts log_areas spaces : List Resource) (index : ℕ)
    (env : NewEnvironment) : Type 0 where
  pub iut : (r : Resource) × (get_elem? iuts index ≡ some r) × (env.providers.iut ≡ r.name)
  pub log_area :
      (r : Resource) × (get_elem? log_areas index ≡ some r) × (env.providers.log_area ≡ r.name)
  pub space :
      (r : Resource) × (get_elem? spaces index ≡ some r)
      × (env.providers.execution_space ≡ r.name)
      × (env.name ≡ r.id)
  pub its_tests : get_elem? tests index ≡ some env.tests

-- Environments of the indices from one on.
abbrev pub AreMade :
    (tests : List (List Test)) (iuts log_areas spaces : List Resource)
    → ℕ
    → List NewEnvironment
    → Type 0
AreMade tests iuts log_areas spaces index [] = Unit
AreMade tests iuts log_areas spaces index (env ∷ envs) =
    MadeOf tests iuts log_areas spaces index env
    × AreMade tests iuts log_areas spaces (index + 1) envs

slot_of-ok :
    {E : Type 0} (area space iut : Option Resource) (its_tests : Option (List Test)) (x : Slot)
    → ◌≡◌ {A = Result (Fault E) Slot} (slot_of area space iut its_tests) (ok x)
    → (area ≡ some x.log_area)
      × (space ≡ some x.space)
      × (iut ≡ some x.iut)
      × (its_tests ≡ some x.its_tests)
slot_of-ok none space iut its_tests x h = cc
slot_of-ok (some a) none iut its_tests x h = cc
slot_of-ok (some a) (some b) none its_tests x h = cc
slot_of-ok (some a) (some b) (some c) none x h = cc
slot_of-ok {E} (some a) (some b) (some c) (some d) x h =
    let same : ◌≡◌ {A = Slot} (record { iut = c; log_area = a; space = b; its_tests = d }) x = cc in
    (
      ap (λ y. some y.log_area) same,
      ap (λ y. some y.space) same,
      ap (λ y. some y.iut) same,
      ap (λ y. some y.its_tests) same,
    )

module _ {W E Time : Type 0} (api : ProvisionApi W E) (er : EnvironmentRequest Time)
    (namespace : String) where
  create_environment-ok :
      (index : ℕ) (slot : Slot) (s : Sys W NewEnvironment)
      → (create_environment api er namespace index slot s).0 ≡ ok tt
      → (json : Json) × ((create_environment api er namespace index slot s).1.calls
          ≡ new_environment api er namespace index slot json ∷ s.calls)
  unfolding create_environment
  create_environment-ok index slot s h =
      let client = ask api.kubernetes_client >>= λ e. pure (lift_error e) in
      let (_, _, e1) = >>?-ok client _ s tt h in
      let (json, _, e2) =
        >>?-ok (pure (lift (marshal api slot))) _ (client s).1 tt (ap (λ o. o.0) (sym e1) ∙ h) in
      (json, ap (λ o. o.1.calls) (e1 ∙ e2))

  -- If the creation of n environments from an index on succeeds, then exactly n were created, in the
  -- order of the index: each of the IUT, the log area, the execution space and the tests at its index,
  -- and with the identifier of its execution space as its name.
  pub create_environments-AreMade :
      (tests : List (List Test)) (iuts log_areas spaces : List Resource) (n index : ℕ)
      (s : Sys W NewEnvironment)
      → (create_environments api er namespace tests iuts log_areas spaces n index s).0 ≡ ok tt
      → (envs : List NewEnvironment) × (length envs ≡ n)
        × AreMade tests iuts log_areas spaces index envs
        × ((create_environments api er namespace tests iuts log_areas spaces n index s).1.calls
            ≡ logged envs s.calls)
  unfolding create_environments new_environment
  create_environments-AreMade tests iuts log_areas spaces zero index s h = ([], refl, tt, refl)
  create_environments-AreMade tests iuts log_areas spaces (suc n) index s h =
      let (slot, found, e1) =
        >>?-ok
          (pure (
            slot_of (get_elem? log_areas index) (get_elem? spaces index) (get_elem? iuts index)
              (get_elem? tests index)))
          _ s tt h in
      let one = create_environment api er namespace index slot in
      let (_, made, e2) = >>?-ok one _ s tt (ap (λ o. o.0) (sym e1) ∙ h) in
      let (at_area, at_space, at_iut, at_tests) = slot_of-ok _ _ _ _ slot found in
      let (json, sent) = create_environment-ok index slot s made in
      let (envs, many, are_made, rest) =
        create_environments-AreMade tests iuts log_areas spaces n (index + 1) (one s).1
          (ap (λ o. o.0) (sym (e1 ∙ e2)) ∙ h) in
      let env = new_environment api er namespace index slot json in
      let made_of : MadeOf tests iuts log_areas spaces index env = record {
        iut = (slot.iut, at_iut, refl);
        log_area = (slot.log_area, at_area, refl);
        space = (slot.space, at_space, refl, refl);
        its_tests = at_tests;
      } in
      (
        env ∷ envs,
        ap (λ m. suc m) many,
        (made_of, are_made),
        ap (λ o. o.1.calls) (e1 ∙ e2) ∙ rest ∙ ap (λ log. logged envs log) sent,
      )
