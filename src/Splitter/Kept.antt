-- ===== src/Splitter/Kept.antt =====
-- No test is lost and none is added twice.
use mathlib.Core.List.{Perm, perm_middle, perm-append_left_iff, append-nil, append_assoc}
use mathlib.Core.List.Perm
use etos.Prelude.{
  ap, sym, ◌∙◌, ℕ, zero, suc, ◌≡◌, refl, some, Option-cases, inl, inr, length, List, [], ◌∷◌, ◌++◌,
  arith, flatten, get_elem?, set, length-set, replicate,
}
use etos.Splitter.{
  RoundRobin, new_round_robin_splitter, set_size, add_test, add_tests, split, int_mod,
}
use etos.Splitter.Split.{fresh}

module _ {ℓ} {A : Type ℓ} where
  flatten-set :
      (suites : List (List A)) (i : ℕ) (xs : List A) (test : A)
      → get_elem? suites i ≡ some xs
      → Perm (flatten (set suites i (xs ++ test ∷ []))) (test ∷ flatten suites)
  unfolding flatten
  flatten-set [] i xs test h = cc
  flatten-set (ys ∷ suites) zero xs test h =
      let same : ys ≡ xs = cc in rw (same, append_assoc) (perm_middle xs (flatten suites))
  flatten-set (ys ∷ suites) (suc i) xs test h =
      Perm.trans ((perm-append_left_iff ys).1 (flatten-set suites i xs test h))
        (perm_middle ys (flatten suites))

  flatten-replicate : (n : ℕ) → flatten (replicate {A = List A} n []) ≡ []
  unfolding flatten
  flatten-replicate zero = refl
  flatten-replicate (suc n) = flatten-replicate n

  -- One AddTest puts the test into the splitter, and changes nothing else but the order.
  add_test-Perm :
      (test : A) (s r : RoundRobin A)
      → add_test test s ≡ some r
      → Perm (flatten r.suites) (test ∷ flatten s.suites)
  unfolding add_test
  add_test-Perm test s r h = elim (Option-cases (int_mod s.current (length s.suites))) [
    | inl bad ↦ absurd (ground arith)
    | inr (i, good) ↦ elim (Option-cases (get_elem? s.suites i)) [
      | inl bad ↦ absurd (ground arith)
      | inr (xs, at) ↦
          let e : r.suites ≡ set s.suites i (xs ++ test ∷ []) = ground arith in
          rw e (flatten-set s.suites i xs test at)
    ]
  ]

  -- Whatever the splitter holds, a run of AddTest that does not panic adds exactly its tests.
  add_tests-Perm :
      (tests : List A) (s r : RoundRobin A)
      → add_tests tests s ≡ some r
      → Perm (flatten r.suites) (tests ++ flatten s.suites)
  unfolding add_tests
  add_tests-Perm [] s r h = let e : s ≡ r = ground arith in rw e (Perm.refl (flatten r.suites))
  add_tests-Perm (test ∷ tests) s r h = elim (Option-cases (add_test test s)) [
    | inl bad ↦ absurd (ground arith)
    | inr (s', good) ↦ Perm.trans (add_tests-Perm tests s' r (ground arith)) (
        Perm.trans ((perm-append_left_iff tests).1 (add_test-Perm test s s' good))
          (perm_middle tests (flatten s.suites)))
  ]

  add_test-slots :
      (test : A) (s r : RoundRobin A) → add_test test s ≡ some r → length r.suites ≡ length s.suites
  unfolding add_test
  add_test-slots test s r h = elim (Option-cases (int_mod s.current (length s.suites))) [
    | inl bad ↦ absurd (ground arith)
    | inr (i, good) ↦ elim (Option-cases (get_elem? s.suites i)) [
      | inl bad ↦ absurd (ground arith)
      | inr (xs, at) ↦
          let e : r.suites ≡ set s.suites i (xs ++ test ∷ []) = ground arith in
          rw e (length-set s.suites i (xs ++ test ∷ []))
    ]
  ]

  -- No slot is added or lost.
  pub add_tests-slots :
      (tests : List A) (s r : RoundRobin A)
      → add_tests tests s ≡ some r
      → length r.suites ≡ length s.suites
  unfolding add_tests
  add_tests-slots [] s r h = let e : s ≡ r = ground arith in ap (λ x. length x.suites) (sym e)
  add_tests-slots (test ∷ tests) s r h = elim (Option-cases (add_test test s)) [
    | inl bad ↦ absurd (ground arith)
    | inr (s', good) ↦ add_tests-slots tests s' r (ground arith) ∙ add_test-slots test s s' good
  ]

-- A splitter of any size that takes all the tests holds each of them exactly once: its slots together
-- are a permutation of the tests.
pub split-Perm {ℓ} :
    {A : Type ℓ} (n : ℕ) (tests : List A) {r : RoundRobin A}
    → add_tests tests (fresh n) ≡ some r
    → Perm (flatten (split r)) tests
unfolding split set_size new_round_robin_splitter
split-Perm {A} n tests {r} h =
    let empty : flatten (replicate {A = List A} n []) ≡ [] = flatten-replicate n in
    rw (empty, append-nil) at (add_tests-Perm tests (fresh n) r h)
