-- ===== src/Splitter/Balance.antt =====
-- The shares of the slots differ by at most one test.
use etos.Prelude.{
  ℕ, ◌+◌, ◌%◌, ◌≤◌, ◌<◌, ◌≡◌, ◌⊎◌, inl, inr, Bool-cases, sym, ap, ◌∙◌, ◌≢◌, List, [], ◌∷◌, arith,
  length, ◌==◌, if◌then◌else◌,
}
use native.Mathlib.Nat.{mod-lt, mod-eq_of_lt, mod-add-mod, mod_self}
use etos.Splitter.Shares.{share}

-- The pointer's next position.
next_mod : (i n : ℕ) → 0 < n → (i + 1) % n ≡ (if (i % n) + 1 == n then 0 else (i % n) + 1)
next_mod i n h = elim (Bool-cases ((i % n) + 1 == n)) [
  | inl e ↦
      let at : (i % n) + 1 ≡ n = ground arith in
      rw e (sym (mod-add-mod i n 1) ∙ ap (λ m. m % n) at ∙ mod_self n)
  | inr e ↦
      let at : (i % n) + 1 ≢ n = ground arith in
      rw e (sym (mod-add-mod i n 1) ∙ mod-eq_of_lt (omega (arith, mod-lt i h)))
]

-- A pointer at a that goes round meets k no later than j.
abbrev Before : ℕ → ℕ → ℕ → Type 0
Before a k j = ((a ≤ k) × (k ≤ j)) ⊎ (((j < a) × (a ≤ k)) ⊎ ((k ≤ j) × (j < a)))

module _ {ℓ} {A : Type ℓ} where
  share_balanced :
      (n i k j : ℕ) (tests : List A)
      → 0 < n
      → k < n
      → j < n
      → Before (i % n) k j
      → (length (share n j i tests) ≤ length (share n k i tests))
        × (length (share n k i tests) ≤ length (share n j i tests) + 1)
  share_balanced n i k j [] pos lk lj b = omega arith
  share_balanced n i k j (test ∷ tests) pos lk lj b = ground (
    arith,
    next_mod i n pos,
    share_balanced n (i + 1) k j tests,
    share_balanced n (i + 1) j k tests,
  )

  -- A slot has as many tests as a later one, or one more.
  pub share-le :
      (n k j : ℕ) (tests : List A)
      → k ≤ j
      → j < n
      → (length (share n j 0 tests) ≤ length (share n k 0 tests))
        × (length (share n k 0 tests) ≤ length (share n j 0 tests) + 1)
  share-le n k j tests kj jn =
      share_balanced n 0 k j tests (omega arith) (omega arith) jn (inl (omega arith))
