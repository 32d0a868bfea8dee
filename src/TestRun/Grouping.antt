-- ===== src/TestRun/Grouping.antt =====
-- How the tests of a suite are grouped by their test runner, against descriptions by filters.
use mathlib.Core.List.{
  Perm, perm_middle, perm-append_left_iff, append-nil, append_assoc, perm_append_comm,
  perm-append_right_iff,
}
use mathlib.Core.List.Perm
use etos.Prelude.{
  ℕ, ◌≡◌, refl, sym, ◌∙◌, ap, Bool, false, Bool-cases, Option-cases, inl, inr, String, List, [],
  ◌∷◌, ◌++◌, arith, if◌then◌else◌, ◌~◌, eq_iff,
}
use etos.Api.{Test}
use etos.TestRun.Groups.{add_to_group, group_tests, index_of}

-- The tests whose test runner is wanted.
abbrev pub wanted : (String → Bool) → List Test → List Test
wanted p [] = []
wanted p (test ∷ tests) = if p test.test_runner then test ∷ wanted p tests else wanted p tests

-- The tests of a test runner.
abbrev pub tests_of : String → List Test → List Test
tests_of runner tests = wanted (λ r. r ~ runner) tests

-- The tests of the groups whose test runner is wanted.
abbrev pub in_groups : (String → Bool) → List (String × List Test) → List Test
in_groups p [] = []
in_groups p ((runner, tests) ∷ groups) = (if p runner then tests else []) ++ in_groups p groups

-- The map at a test runner; a missing one has no tests.
abbrev pub group_of : String → List (String × List Test) → List Test
group_of runner [] = []
group_of runner ((r, tests) ∷ groups) =
    let rest = group_of runner groups in if r ~ runner then tests else rest

-- A predicate of all elements.
abbrev pub Each : {A : Type 0} → (A → Type 0) → List A → Type 0
Each P [] = Unit
Each P (x ∷ xs) = P x × Each P xs

abbrev pub IsFresh : String → List (String × List Test) → Type 0
IsFresh runner groups = Each (λ g. (g.0 ~ runner) ≡ false) groups

-- No test runner has two groups.
abbrev pub IsDistinct : List (String × List Test) → Type 0
IsDistinct [] = Unit
IsDistinct ((runner, tests) ∷ groups) = IsFresh runner groups × IsDistinct groups

wanted-append :
    (p : String → Bool) (xs ys : List Test) → wanted p (xs ++ ys) ≡ wanted p xs ++ wanted p ys
wanted-append p [] ys = refl
wanted-append p (x ∷ xs) ys = ground (arith, wanted-append p xs ys)

other_way : (r s : String) → (r ~ s) ≡ false → (s ~ r) ≡ false
other_way r s ne = elim (Bool-cases (s ~ r)) [
  | inl e ↦
      let back : r ≡ s = sym ((eq_iff s r).0 e) in absurd (ground (arith, (eq_iff r s).1 back, ne))
  | inr f ↦ f
]

add_to_group-group_of :
    (runner : String) (test : Test) (groups : List (String × List Test))
    → group_of runner (add_to_group test groups)
      ≡ group_of runner groups ++ tests_of runner (test ∷ [])
unfolding add_to_group
add_to_group-group_of runner test [] = ground arith
add_to_group-group_of runner test ((r, tests) ∷ groups) = elim (Bool-cases (r ~ test.test_runner)) [
  | inl same ↦
      rw (same, sym ((eq_iff r test.test_runner).0 same))
        (elim (Bool-cases (r ~ runner)) [
          | inl t ↦ rw t refl
          | inr f ↦ rw f (sym (append-nil (group_of runner groups)))
        ])
  | inr new ↦ rw new (elim (Bool-cases (r ~ runner)) [
    | inl t ↦
        let e = (eq_iff r runner).0 t in
        rw (t, ap (λ x. test.test_runner ~ x) (sym e), other_way r test.test_runner new)
          (sym (append-nil tests))
    | inr f ↦ rw f (add_to_group-group_of runner test groups)
  ])
]

-- A test at the end of a group, before the others.
put_first : (test : Test) (xs ys : List Test) → Perm ((xs ++ test ∷ []) ++ ys) (test ∷ (xs ++ ys))
put_first test xs ys = rw append_assoc (perm_middle xs ys)

-- Tests before the first group are as good as after it.
pub pass_by : (ts xs ys zs : List Test) → Perm ys (ts ++ zs) → Perm (xs ++ ys) (ts ++ (xs ++ zs))
pass_by ts xs ys zs h = Perm.trans ((perm-append_left_iff xs).1 h) (
    rw (sym (append_assoc xs ts zs), sym (append_assoc ts xs zs))
      ((perm-append_right_iff zs).1 (perm_append_comm xs ts)))

add_to_group-in_groups :
    (p : String → Bool) (test : Test) (groups : List (String × List Test))
    → Perm (in_groups p (add_to_group test groups)) (wanted p (test ∷ []) ++ in_groups p groups)
unfolding add_to_group
add_to_group-in_groups p test [] = elim (Bool-cases (p test.test_runner)) [
  | inl t ↦ rw t (Perm.refl (test ∷ []))
  | inr f ↦ rw f (Perm.refl [])
]
add_to_group-in_groups p test ((r, tests) ∷ groups) = elim (Bool-cases (r ~ test.test_runner)) [
  | inl same ↦
      rw (same, (eq_iff r test.test_runner).0 same)
        (elim (Bool-cases (p test.test_runner)) [
          | inl t ↦ rw t (put_first test tests (in_groups p groups))
          | inr f ↦ rw f (Perm.refl (in_groups p groups))
        ])
  | inr new ↦ rw new (elim (Bool-cases (p r)) [
    | inl t ↦ rw t (pass_by (wanted p (test ∷ [])) tests _ _ (add_to_group-in_groups p test groups))
    | inr f ↦ rw f (add_to_group-in_groups p test groups)
  ])
]

add_to_group-IsFresh :
    (runner : String) (test : Test) (groups : List (String × List Test))
    → (test.test_runner ~ runner) ≡ false
    → IsFresh runner groups
    → IsFresh runner (add_to_group test groups)
unfolding add_to_group
add_to_group-IsFresh runner test [] other fresh = (other, tt)
add_to_group-IsFresh runner test ((r, tests) ∷ groups) other (first, fresh) =
    elim (Bool-cases (r ~ test.test_runner)) [
      | inl same ↦ rw same (first, fresh)
      | inr new ↦ rw new (first, add_to_group-IsFresh runner test groups other fresh)
    ]

add_to_group-IsDistinct :
    (test : Test) (groups : List (String × List Test))
    → IsDistinct groups
    → IsDistinct (add_to_group test groups)
unfolding add_to_group
add_to_group-IsDistinct test [] d = (tt, tt)
add_to_group-IsDistinct test ((r, tests) ∷ groups) (fresh, d) =
    elim (Bool-cases (r ~ test.test_runner)) [
      | inl same ↦ rw same (fresh, d)
      | inr new ↦ rw new (
        add_to_group-IsFresh r test groups (other_way r test.test_runner new) fresh,
        add_to_group-IsDistinct test groups d,
      )
    ]

module _ {A : Type 0} {P Q R : A → Type 0} where
  -- Two predicates of all elements give a third.
  pub Each-zip : (xs : List A) → ((x : A) → P x → Q x → R x) → Each P xs → Each Q xs → Each R xs
  Each-zip [] f ps qs = tt
  Each-zip (x ∷ xs) f (p, ps) (q, qs) = (f x p q, Each-zip xs f ps qs)

-- The map at the test runner of each of its groups.
IsDistinct-group_of :
    (groups : List (String × List Test))
    → IsDistinct groups
    → Each (λ g. group_of g.0 groups ≡ g.1) groups
IsDistinct-group_of [] d = tt
IsDistinct-group_of ((r, tests) ∷ groups) (fresh, d) = (
  ground (arith, eq_iff r r),
  Each-zip groups (λ g other at. ground (arith, other_way g.0 r other, at)) fresh
      (IsDistinct-group_of groups d),
)

-- The groups after more tests, without the indices.
abbrev pub grouped : List Test → List (String × List Test) → List (String × List Test)
grouped [] groups = groups
grouped (test ∷ tests) groups = grouped tests (add_to_group test groups)

pub group_tests-grouped :
    (tests : List Test) (groups : List (String × List Test)) (indices : List (String × ℕ))
    (index : ℕ)
    → (group_tests tests groups indices index).0 ≡ grouped tests groups
unfolding group_tests
group_tests-grouped [] groups indices index = refl
group_tests-grouped (test ∷ tests) groups indices index =
    elim (Option-cases (index_of test.test_runner indices)) [
      | inl new ↦ rw (new, group_tests) (group_tests-grouped tests (add_to_group test groups) _ _)
      | inr (i, old) ↦
          rw (old, group_tests) (group_tests-grouped tests (add_to_group test groups) _ _)
    ]

grouped-group_of :
    (runner : String) (tests : List Test) (groups : List (String × List Test))
    → group_of runner (grouped tests groups) ≡ group_of runner groups ++ tests_of runner tests
grouped-group_of runner [] groups = sym (append-nil (group_of runner groups))
grouped-group_of runner (test ∷ tests) groups =
    grouped-group_of runner tests (add_to_group test groups)
    ∙ ap (λ ts. ts ++ tests_of runner tests) (add_to_group-group_of runner test groups)
    ∙ append_assoc (group_of runner groups) (tests_of runner (test ∷ [])) (tests_of runner tests)
    ∙ ap (λ ts. group_of runner groups ++ ts)
        (sym (wanted-append (λ r. r ~ runner) (test ∷ []) tests))

grouped-IsDistinct :
    (tests : List Test) (groups : List (String × List Test))
    → IsDistinct groups
    → IsDistinct (grouped tests groups)
grouped-IsDistinct [] groups d = d
grouped-IsDistinct (test ∷ tests) groups d =
    grouped-IsDistinct tests (add_to_group test groups) (add_to_group-IsDistinct test groups d)

grouped-in_groups :
    (p : String → Bool) (tests : List Test) (groups : List (String × List Test))
    → Perm (in_groups p (grouped tests groups)) (wanted p tests ++ in_groups p groups)
grouped-in_groups p [] groups = Perm.refl (in_groups p groups)
grouped-in_groups p (test ∷ tests) groups =
    Perm.trans (grouped-in_groups p tests (add_to_group test groups)) (
      Perm.trans ((perm-append_left_iff (wanted p tests)).1 (add_to_group-in_groups p test groups))
        (rw (wanted-append p (test ∷ []) tests, append_assoc)
          (pass_by (wanted p (test ∷ [])) (wanted p tests) _ (in_groups p groups) (Perm.refl _))))

-- The map of a suite's tests has one group for each test runner, and that is of exactly the tests of
-- the test runner, in their order.
pub group_tests-exact :
    (tests : List Test)
    → IsDistinct (group_tests tests [] [] 0).0
      × Each (λ g. g.1 ≡ tests_of g.0 tests) (group_tests tests [] [] 0).0
group_tests-exact tests =
    let d = grouped-IsDistinct tests [] tt in
    rw (group_tests-grouped tests [] [] 0) (
      d,
      Each-zip (grouped tests []) (λ g at _. sym at ∙ grouped-group_of g.0 tests [])
          (IsDistinct-group_of (grouped tests []) d) (IsDistinct-group_of (grouped tests []) d),
    )

-- Together the groups of the wanted test runners have exactly the tests of the wanted test runners.
pub group_tests-Perm :
    (p : String → Bool) (tests : List Test)
    → Perm (in_groups p (group_tests tests [] [] 0).0) (wanted p tests)
group_tests-Perm p tests =
    rw (group_tests-grouped tests [] [] 0)
      (rw⁻¹ (append-nil (wanted p tests)) (grouped-in_groups p tests []))
