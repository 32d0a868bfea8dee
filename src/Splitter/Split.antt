-- ===== src/Splitter/Split.antt =====
-- The splitter as `Provision` uses it: SetSize, AddTest for each test, then Split.
use etos.Prelude.{
  ℕ, ◌+◌, ◌^◌, ◌≤◌, ◌<◌, ◌≡◌, refl, ◌∙◌, none, some, List, [], ◌∷◌, arith, length, get_elem?,
  length-replicate, get_elem?-replicate,
}
use etos.Splitter.{RoundRobin, new_round_robin_splitter, set_size, add_test, add_tests, split}
use etos.Splitter.Balance.{share-le}
use etos.Splitter.Shares.{share, add_tests-Added}

module _ {ℓ} {A : Type ℓ} where
  abbrev pub fresh : ℕ → RoundRobin A
  fresh n = set_size n new_round_robin_splitter

pub slots-fresh {ℓ} : (A : Type ℓ) (n : ℕ) → length (fresh {A = A} n).suites ≡ n
unfolding set_size new_round_robin_splitter
slots-fresh A n = length-replicate n []

pub split-add_tests {ℓ} :
    {A : Type ℓ} (n : ℕ) (tests : List A)
    → 0 < n
    → length tests ≤ 2 ^ 63
    → (r : RoundRobin A) × (add_tests tests (fresh n) ≡ some r)
      × (length (split r) ≡ n)
      × ((k : ℕ) → k < n → get_elem? (split r) k ≡ some (share n k 0 tests))
unfolding set_size new_round_robin_splitter split
split-add_tests {A} n tests pos small =
    let same = slots-fresh A n in
    let (r, h) = add_tests-Added (fresh n) tests (omega (arith, same)) (omega arith) in
    (r, h.ran, h.slots ∙ same, λ k lt. rw same at (h.filled k [] (get_elem?-replicate n k [] lt)))

-- With at least one slot, adding up to 2 ^ 63 tests succeeds, keeps the number of slots, and slot k then
-- holds, in order, exactly the tests at the positions that leave the remainder k modulo that number.
pub split-share {ℓ} :
    {A : Type ℓ} (n k : ℕ) (tests : List A)
    → k < n
    → length tests ≤ 2 ^ 63
    → (r : RoundRobin A) × (add_tests tests (fresh n) ≡ some r)
      × (length (split r) ≡ n)
      × (get_elem? (split r) k ≡ some (share n k 0 tests))
split-share n k tests kn small =
    let (r, ran, slots, at) = split-add_tests n tests (omega arith) small in
    (r, ran, slots, at k kn)

-- With no slot, AddTest panics, so the splitter of an empty size accepts only an empty list of tests.
pub add_tests-fresh_zero {ℓ} :
    {A : Type ℓ} (test : A) (tests : List A) → add_tests (test ∷ tests) (fresh 0) ≡ none
unfolding add_tests add_test set_size new_round_robin_splitter
add_tests-fresh_zero test tests = refl

-- After a run that did not panic, for at most 2 ^ 63 tests: of two slots k ≤ j, slot k has as many tests
-- as slot j, or one more.
pub split_balanced {ℓ} :
    {A : Type ℓ} (n k j : ℕ) (tests : List A) {r : RoundRobin A} {xs ys : List A}
    → k ≤ j
    → j < n
    → length tests ≤ 2 ^ 63
    → add_tests tests (fresh n) ≡ some r
    → get_elem? (split r) k ≡ some xs
    → get_elem? (split r) j ≡ some ys
    → (length ys ≤ length xs) × (length xs ≤ length ys + 1)
split_balanced n k j tests {r} {xs} {ys} kj jn small ran at_k at_j =
    let (r', ran', _, at) = split-add_tests n tests (omega arith) small in
    let same : r ≡ r' = cc ran' in
    let to_k : xs ≡ share n k 0 tests = cc (same, at k (omega arith)) in
    let to_j : ys ≡ share n j 0 tests = cc (same, at j jn) in
    rw (to_k, to_j) (share-le n k j tests kj jn)
