-- ===== src/Splitter/Tests.antt =====
-- The splitter on five tests.
use etos.Prelude.{ℕ, ◌+◌, ◌≤◌, ◌≡◌, refl, some, List, [], ◌∷◌, arith, length, get_elem?, flatten}
use mathlib.Core.List.{Perm}
use etos.Splitter.{RoundRobin, new_round_robin_splitter, set_size, add_test, add_tests, split}
use etos.Splitter.Shares.{share}
use etos.Splitter.Split.{fresh, split-share, split_balanced}
use etos.Splitter.Kept.{split-Perm}

abbrev five : List ℕ
five = 10 ∷ 11 ∷ 12 ∷ 13 ∷ 14 ∷ []

abbrev dealt : RoundRobin ℕ
dealt = record { suites = (10 ∷ 12 ∷ 14 ∷ []) ∷ (11 ∷ 13 ∷ []) ∷ []; current = 5 }

five-dealt : add_tests five (fresh 2) ≡ some dealt
unfolding add_tests add_test set_size new_round_robin_splitter
five-dealt = refl

split-share_example :
    (r : RoundRobin ℕ) × (add_tests five (fresh 2) ≡ some r)
    × (length (split r) ≡ 2)
    × (get_elem? (split r) 1 ≡ some (share 2 1 0 five))
split-share_example = split-share 2 1 five (omega arith) (omega arith)

split_balanced_example : (2 ≤ 3) × (3 ≤ 2 + 1)
unfolding split
split_balanced_example =
    split_balanced 2 0 1 five {r = dealt} {xs = 10 ∷ 12 ∷ 14 ∷ []} {ys = 11 ∷ 13 ∷ []} (omega arith)
      (omega arith) (omega arith) five-dealt refl refl

split-Perm_example : Perm (flatten (split dealt)) five
split-Perm_example = split-Perm 2 five {r = dealt} five-dealt
