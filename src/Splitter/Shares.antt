-- ===== src/Splitter/Shares.antt =====
-- What each slot of the round-robin splitter ends with.
use mathlib.Core.List.{append-nil, append_assoc}
use etos.Prelude.{
  ℕ, ◌+◌, ◌%◌, ◌^◌, ◌≤◌, ◌<◌, ◌≡◌, refl, ◌∙◌, ap, inl, inr, Bool-cases, some, List, [], ◌∷◌, ◌++◌,
  arith, length, get_elem?, set, length-set, get_elem?-set, get_elem?-some, ◌==◌, if◌then◌else◌,
}
use etos.Splitter.{RoundRobin, add_test, add_tests}

module _ {ℓ} {A : Type ℓ} where
  -- The tests at the positions i, i + 1, … that leave the remainder k modulo n, in order.
  abbrev pub share : (n k i : ℕ) → List A → List A
  share n k i [] = []
  share n k i (test ∷ tests) =
      let rest = share n k (i + 1) tests in if i % n == k then test ∷ rest else rest

  -- The slots after a run of `add_tests` from s.
  pub record Added (s : RoundRobin A) (tests : List A) (r : RoundRobin A) : Type ℓ where
    pub ran : add_tests tests s ≡ some r
    pub slots : length r.suites ≡ length s.suites
    pub filled :
        (k : ℕ) (xs : List A)
        → get_elem? s.suites k ≡ some xs
        → get_elem? r.suites k ≡ some (xs ++ share (length s.suites) k s.current tests)

  abbrev place : RoundRobin A → A → List A → RoundRobin A
  place s test xs = record {
    suites = set s.suites (s.current % length s.suites) (xs ++ test ∷ []);
    current = s.current + 1;
  }

  add_test-place :
      (s : RoundRobin A) (test : A) (xs : List A)
      → 0 < length s.suites
      → s.current < 2 ^ 63
      → get_elem? s.suites (s.current % length s.suites) ≡ some xs
      → add_test test s ≡ some (place s test xs)
  unfolding add_test
  add_test-place s test xs pos small at = ground arith

  get_elem?-place :
      (s : RoundRobin A) (test : A) (k : ℕ) (xs ys : List A)
      → get_elem? s.suites (s.current % length s.suites) ≡ some xs
      → get_elem? s.suites k ≡ some ys
      → get_elem? (place s test xs).suites k
        ≡ some (if s.current % length s.suites == k then ys ++ test ∷ [] else ys)
  get_elem?-place s test k xs ys at at_k =
      let moved = get_elem?-set s.suites (s.current % length s.suites) k (xs ++ test ∷ []) at_k in
      elim (Bool-cases (s.current % length s.suites == k)) [
        | inl same ↦
            let e : s.current % length s.suites ≡ k = ground arith in
            let xs_ys : xs ≡ ys = ground arith in ground arith
        | inr other ↦ ground arith
      ]

  share-cons :
      (n k i : ℕ) (test : A) (tests ys : List A)
      → (if i % n == k then ys ++ test ∷ [] else ys) ++ share n k (i + 1) tests
        ≡ ys ++ share n k i (test ∷ tests)
  share-cons n k i test tests ys = elim (Bool-cases (i % n == k)) [
    | inl e ↦ rw e (append_assoc ys (test ∷ []) (share n k (i + 1) tests))
    | inr e ↦ rw e
  ]

  -- From a splitter with slots, adding never fails, and each slot gets its share, in order.
  pub add_tests-Added :
      (s : RoundRobin A) (tests : List A)
      → 0 < length s.suites
      → s.current + length tests ≤ 2 ^ 63
      → (r : RoundRobin A) × Added s tests r
  unfolding add_tests
  add_tests-Added s [] pos small =
      (s, record { ran = refl; slots = refl; filled = λ k xs e. rw append-nil e })
  add_tests-Added s (test ∷ tests) pos small =
      let (xs, at) = get_elem?-some s.suites (s.current % length s.suites) (omega arith) in
      let s' = place s test xs in
      let same = length-set s.suites (s.current % length s.suites) (xs ++ test ∷ []) in
      let (r, h) = add_tests-Added s' tests (omega (arith, same)) (omega arith) in
      (
        r,
        record {
          ran = rw (add_test-place s test xs pos (omega arith) at, add_tests) h.ran;
          slots = h.slots ∙ same;
          filled = λ k ys e.
              rw same at (h.filled k _ (get_elem?-place s test k xs ys at e))
              ∙ ap some (share-cons (length s.suites) k s.current test tests ys);
        },
      )
