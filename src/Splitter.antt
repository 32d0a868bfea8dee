-- ===== src/Splitter.antt =====
-- pkg/splitter/roundrobin.go: the round-robin splitter of the tests of a suite.
--
-- `make([][]Test, size)` is `replicate`, `int(s.current) % len(s.suites)` is `next_index`. What Go
-- panics at (a division by zero, a negative index) is `none`. The element type, `v1alpha1.Test`,
-- is a type parameter: the splitter looks into no test.
pub mod Shares
pub mod Balance
pub mod Split
pub mod Kept
mod Tests
use etos.Prelude.{
  ℕ, ◌+◌, ◌-◌, ◌%◌, ◌^◌, Option, none, some, List, [], ◌∷◌, ◌++◌, length, get_elem?, set, replicate,
  ltb, ◌==◌, if◌then◌else◌,
}

pub record RoundRobin {ℓ} (A : Type ℓ) : Type ℓ where
  pub suites : List (List A)
  pub current : ℕ  -- uint64

-- `int(c) % n` as an index: from 2 ^ 63 on `int(c)` is c - 2 ^ 64, and Go's remainder has the sign
-- of the dividend, so only a remainder of 0 can index.
pub int_mod : ℕ → ℕ → Option ℕ
int_mod c n =
    if n == 0
    then none
    else if ltb c (2 ^ 63)
    then some (c % n)
    else if (2 ^ 64 - c) % n == 0
    then some 0
    else none

module _ {ℓ} {A : Type ℓ} where
  -- NewRoundRobinSplitter: `&RoundRobin{}`.
  unfoldable pub new_round_robin_splitter : RoundRobin A
  new_round_robin_splitter = record { suites = []; current = 0 }

  -- SetSize, for a size that is not negative.
  unfoldable pub set_size : ℕ → RoundRobin A → RoundRobin A
  set_size size s = record s { suites = replicate size [] }

  pub next_index : RoundRobin A → Option ℕ × RoundRobin A
  unfolding int_mod
  next_index s =
      (int_mod s.current (length s.suites), record s { current = (s.current + 1) % 2 ^ 64 })

  append_at : List (List A) → ℕ → A → Option (List (List A))
  append_at suites index test = elim (get_elem? suites index) [
    | none ↦ none
    | some suite ↦ some (set suites index (suite ++ test ∷ []))
  ]

  unfoldable pub add_test : A → RoundRobin A → Option (RoundRobin A)
  unfolding next_index append_at
  add_test test s =
      let (index, s') = next_index s in
      elim index [
        | none ↦ none
        | some i ↦ elim (append_at s'.suites i test) [
          | none ↦ none
          | some suites ↦ some (record s' { suites = suites })
        ]
      ]

  -- Split: for the round robin splitter they are already split.
  unfoldable pub split : RoundRobin A → List (List A)
  split s = s.suites

  -- The loop of `Provision` that adds each test (cmd/environmentprovider/main.go).
  unfoldable pub add_tests : List A → RoundRobin A → Option (RoundRobin A)
  add_tests [] s = some s
  add_tests (test ∷ tests) s = elim (add_test test s) [ none ↦ none | some s' ↦ add_tests tests s' ]
