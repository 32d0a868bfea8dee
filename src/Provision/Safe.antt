-- ===== src/Provision/Safe.antt =====
-- Provision does not panic.
use etos.Prelude.{
  ℕ, zero, suc, ◌+◌, ◌^◌, ◌≤◌, ◌<◌, ◌≢◌, Option, none, some, Bool-cases, inl, inr, String, List,
  arith, length, get_elem?, get_elem?-some,
}
use etos.Prelude.Int.{pos, ltb_ℤ, min_ℤ}
use etos.Kube.Monad.{Sys, Result, ok, err, ◌>>=◌, pure, ask, >>?-safe}
use etos.Api.{Test, EnvironmentRequest}
use etos.Splitter.{split}
use etos.Splitter.Split.{split-add_tests}
use etos.Provision.{
  Resource, NewEnvironment, panicked, Slot, slot_of, marshal, ProvisionApi, max_possible, lift,
  lift_error, create_environment, create_environments, provision_all,
}

lift-safe : {E A : Type 0} (r : Result E A) → lift r ≢ err panicked
lift-safe (ok a) h = cc
lift-safe (err e) h = cc

lift_error-safe : {E : Type 0} (o : Option E) → lift_error o ≢ err panicked
lift_error-safe none h = cc
lift_error-safe (some e) h = cc

module _ {W E Time : Type 0} (api : ProvisionApi W E) (er : EnvironmentRequest Time)
    (namespace : String) where
  create_environment-safe :
      (index : ℕ) (slot : Slot) (s : Sys W NewEnvironment)
      → (create_environment api er namespace index slot s).0 ≢ err panicked
  unfolding create_environment
  create_environment-safe index slot s =
      >>?-safe panicked (ask api.kubernetes_client >>= λ e. pure (lift_error e)) _ s
        (lift_error-safe _)
        λ _ s'.
          >>?-safe panicked (pure (lift (marshal api slot))) _ s' (lift-safe _)
            λ json s''. lift_error-safe _

  slot_of-safe :
      (tests : List (List Test)) (iuts log_areas spaces : List Resource) (index : ℕ)
      → index < length tests
      → index < length iuts
      → index < length log_areas
      → index < length spaces
      → slot_of {E = E}
          (get_elem? log_areas index)
          (get_elem? spaces index)
          (get_elem? iuts index)
          (get_elem? tests index)
        ≢ err panicked
  slot_of-safe tests iuts log_areas spaces index lt li la ls =
      let (t, at_t) = get_elem?-some tests index lt in
      let (i, at_i) = get_elem?-some iuts index li in
      let (a, at_a) = get_elem?-some log_areas index la in
      let (p, at_s) = get_elem?-some spaces index ls in rw (at_t, at_i, at_a, at_s) (λ h. cc)

  create_environments-safe :
      (tests : List (List Test)) (iuts log_areas spaces : List Resource) (n index : ℕ)
      (s : Sys W NewEnvironment)
      → index + n ≤ length tests
      → index + n ≤ length iuts
      → index + n ≤ length log_areas
      → index + n ≤ length spaces
      → (create_environments api er namespace tests iuts log_areas spaces n index s).0
        ≢ err panicked
  unfolding create_environments
  create_environments-safe tests iuts log_areas spaces zero index s lt li la ls = λ h. cc
  create_environments-safe tests iuts log_areas spaces (suc n) index s lt li la ls =
      >>?-safe panicked
        (pure (
          slot_of (get_elem? log_areas index) (get_elem? spaces index) (get_elem? iuts index)
            (get_elem? tests index)))
        _ s
        (slot_of-safe tests iuts log_areas spaces index (omega arith) (omega arith) (omega arith)
          (omega arith))
        λ slot s'.
          >>?-safe panicked (create_environment api er namespace index slot) _ s'
            (create_environment-safe index slot s')
            λ _ s''.
              create_environments-safe tests iuts log_areas spaces n (index + 1) s'' (omega arith)
                (omega arith) (omega arith) (omega arith)

  max_possible-le :
      (iuts log_areas spaces : List Resource)
      → (max_possible iuts log_areas spaces ≤ length iuts)
        × (max_possible iuts log_areas spaces ≤ length log_areas)
        × (max_possible iuts log_areas spaces ≤ length spaces)
  max_possible-le iuts log_areas spaces = (ground arith, ground arith, ground arith)

  -- With at least one IUT, one log area and one execution space, and at most 2 ^ 63 tests, Provision does
  -- not panic: it creates the environments, or it returns an error.
  pub provision_all-safe :
      (not_enough : E) (iuts log_areas spaces : List Resource) (s : Sys W NewEnvironment)
      → 0 < max_possible iuts log_areas spaces
      → length er.spec.tests ≤ 2 ^ 63
      → (provision_all api er namespace not_enough iuts log_areas spaces s).0 ≢ err panicked
  unfolding provision_all
  provision_all-safe not_enough iuts log_areas spaces s some_place small =
      let n = max_possible iuts log_areas spaces in
      let (r, ran, slots, _) = split-add_tests n er.spec.tests some_place small in
      let (li, la, ls) = max_possible-le iuts log_areas spaces in
      elim (Bool-cases (ltb_ℤ (pos n) (min_ℤ er.spec.maximum_amount er.spec.minimum_amount))) [
        | inl few ↦ rw (few, provision_all) (λ h. cc)
        | inr enough ↦
            rw (enough, provision_all)
              (rw (ran, provision_all)
                (create_environments-safe (split r) iuts log_areas spaces n 0 s
                  (omega (arith, slots)) (omega (arith, li)) (omega (arith, la))
                  (omega (arith, ls))))
      ]
