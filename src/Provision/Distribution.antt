-- ===== src/Provision/Distribution.antt =====
-- How Provision distributes the tests of a request.
use mathlib.Core.List.{Perm, map}
use etos.Prelude.{
  ℕ, suc, ◌+◌, ◌≡◌, refl, sym, ◌∙◌, ap, false, Option, none, some, Bool-cases, inl, inr, String,
  List, [], ◌∷◌, arith, length, get_elem?, flatten,
}
use etos.Prelude.Int.{pos, ltb_ℤ, min_ℤ}
use etos.Kube.Monad.{Sys, Result, ok, ◌>>?◌, pure, logged, >>?-ok}
use etos.Api.{Test, EnvironmentRequest}
use etos.Splitter.{add_tests, split}
use etos.Splitter.Split.{fresh, slots-fresh}
use etos.Splitter.Kept.{split-Perm, add_tests-slots}
use etos.Provision.{
  Resource, NewEnvironment, Fault, ProvisionApi, max_possible, or_panic, create_environments,
  provision_all,
}
use etos.Provision.Created.{AreMade, create_environments-AreMade}

or_panic-ok :
    {E A : Type 0} (o : Option A) (a : A)
    → ◌≡◌ {A = Result (Fault E) A} (or_panic o) (ok a)
    → o ≡ some a
or_panic-ok none a h = cc
or_panic-ok (some b) a h = cc

-- The tests of the environments are the slots from the index on.
AreMade-tests :
    (slots : List (List Test)) (iuts log_areas spaces : List Resource) (index : ℕ)
    (envs : List NewEnvironment) (rest : List (List Test))
    → AreMade slots iuts log_areas spaces index envs
    → length envs ≡ length rest
    → ((i : ℕ) → get_elem? rest i ≡ get_elem? slots (index + i))
    → map (λ (env : NewEnvironment). env.tests) envs ≡ rest
AreMade-tests slots iuts log_areas spaces index [] [] made many at = refl
AreMade-tests slots iuts log_areas spaces index [] (t ∷ rest) made many at =
    absurd (omega (arith, many))
AreMade-tests slots iuts log_areas spaces index (env ∷ envs) [] made many at =
    absurd (omega (arith, many))
AreMade-tests slots iuts log_areas spaces index (env ∷ envs) (t ∷ rest) (first, made) many at =
    let here : some t ≡ get_elem? slots index = at 0 ∙ ap (get_elem? slots) (omega arith) in
    let same : env.tests ≡ t = cc (here, first.its_tests) in
    rw same (
      ap (λ ts. t ∷ ts)
        (AreMade-tests slots iuts log_areas spaces (index + 1) envs rest made (omega (arith, many))
          λ i. at (suc i) ∙ ap (get_elem? slots) (omega arith)))

module _ {W E Time : Type 0} (api : ProvisionApi W E) (er : EnvironmentRequest Time)
    (namespace : String) where
  spread :
      (n : ℕ) (iuts log_areas spaces : List Resource) (s : Sys W NewEnvironment)
      → ((pure (or_panic (add_tests er.spec.tests (fresh n))) >>? λ sp.
            create_environments api er namespace (split sp) iuts log_areas spaces n 0)
          s).0
        ≡ ok tt
      → (envs : List NewEnvironment) × (length envs ≡ n)
        × (((pure (or_panic (add_tests er.spec.tests (fresh n))) >>? λ sp.
                create_environments api er namespace (split sp) iuts log_areas spaces n 0)
              s).1.calls
            ≡ logged envs s.calls)
        × Perm (flatten (map (λ (env : NewEnvironment). env.tests) envs)) er.spec.tests
  unfolding split
  spread n iuts log_areas spaces s h =
      let (sp, ran, e) =
        >>?-ok (pure (or_panic (add_tests er.spec.tests (fresh n))))
          (λ sp. create_environments api er namespace (split sp) iuts log_areas spaces n 0) s tt
          h in
      let (envs, many, made, sent) =
        create_environments-AreMade api er namespace (split sp) iuts log_areas spaces n 0 s
          (ap (λ o. o.0) (sym e) ∙ h) in
      let took : add_tests er.spec.tests (fresh n) ≡ some sp = or_panic-ok _ sp ran in
      let slots = add_tests-slots er.spec.tests (fresh n) sp took ∙ slots-fresh Test n in
      let same =
        AreMade-tests sp.suites iuts log_areas spaces 0 envs sp.suites made (many ∙ sym slots)
          (λ i. ap (get_elem? sp.suites) (omega arith)) in
      (envs, many, ap (λ o. o.1.calls) e ∙ sent, rw same (split-Perm n er.spec.tests took))

  -- If Provision succeeds, then there were enough resources, and it has created exactly as many
  -- environments as there are triples of them; each of the tests of the request is in exactly one of
  -- them.
  pub provision_all-Perm :
      (not_enough : E) (iuts log_areas spaces : List Resource) (s : Sys W NewEnvironment)
      → (provision_all api er namespace not_enough iuts log_areas spaces s).0 ≡ ok tt
      → (envs : List NewEnvironment) × (ltb_ℤ
            (pos (max_possible iuts log_areas spaces))
            (min_ℤ er.spec.maximum_amount er.spec.minimum_amount)
          ≡ false)
        × (length envs ≡ max_possible iuts log_areas spaces)
        × ((provision_all api er namespace not_enough iuts log_areas spaces s).1.calls
            ≡ logged envs s.calls)
        × Perm (flatten (map (λ (env : NewEnvironment). env.tests) envs)) er.spec.tests
  unfolding provision_all split
  provision_all-Perm not_enough iuts log_areas spaces s h =
      elim (Bool-cases (
        ltb_ℤ (pos (max_possible iuts log_areas spaces))
          (min_ℤ er.spec.maximum_amount er.spec.minimum_amount))) [
            | inl few ↦ absurd (cc (rw (few, provision_all) at h))
            | inr enough ↦
                let (envs, many, sent, all_tests) =
                  spread (max_possible iuts log_areas spaces) iuts log_areas spaces s
                    (rw (enough, provision_all) at h) in
                (envs, enough, many, rw (enough, provision_all) sent, all_tests)
          ]
