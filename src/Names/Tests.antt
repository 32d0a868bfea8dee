-- ===== src/Names/Tests.antt =====
-- Names of requests, with the lower casing of ASCII.
use etos.Prelude.{
  ℕ, ◌+◌, ◌≤◌, ◌≡◌, ◌⊎◌, refl, true, false, map, ◌&&◌, List, [], ◌∷◌, arith, length, leb,
  if◌then◌else◌,
}
use etos.Names.{is_alphanumeric, to_rfc1123, generate_name}
use etos.Names.Label.{IsLabel, has_alphanumeric, to_rfc1123-IsLabel}
use etos.Names.Fixed.{KeepsLabels, to_rfc1123_idempotent, length-generate_name}

abbrev lower : ℕ → ℕ
lower c = if leb b'A' c && leb c b'Z' then c + 32 else c

lower-keeps : (c : ℕ) → is_alphanumeric c ≡ true → lower c ≡ c
unfolding is_alphanumeric
lower-keeps c h = ground arith

lower-KeepsLabels : KeepsLabels lower
lower-KeepsLabels = record { alphanumeric = lower-keeps; dash = refl }

-- "-My  Test_"
abbrev raw : List ℕ
raw = 45 ∷ 77 ∷ 121 ∷ 32 ∷ 32 ∷ 84 ∷ 101 ∷ 115 ∷ 116 ∷ 95 ∷ []

-- "my-test"
raw_cleaned : to_rfc1123 lower raw 62 ≡ 109 ∷ 121 ∷ 45 ∷ 116 ∷ 101 ∷ 115 ∷ 116 ∷ []
unfolding to_rfc1123
raw_cleaned = refl

-- At three characters the hyphen is the last and goes too.
raw_cut : to_rfc1123 lower raw 3 ≡ 109 ∷ 121 ∷ []
unfolding to_rfc1123
raw_cut = refl

-- Nothing is left of "___".
nothing_left : to_rfc1123 lower (95 ∷ 95 ∷ 95 ∷ []) 62 ≡ []
unfolding to_rfc1123
nothing_left = refl

to_rfc1123-IsLabel_example :
    (length (to_rfc1123 lower raw 3) ≤ 3)
    × (((has_alphanumeric (map lower raw) ≡ true) × (1 ≤ 3) × IsLabel (to_rfc1123 lower raw 3))
        ⊎ (((has_alphanumeric (map lower raw) ≡ false) ⊎ (◌≡◌ {A = ℕ} 3 0))
            × (to_rfc1123 lower raw 3 ≡ [])))
to_rfc1123-IsLabel_example = to_rfc1123-IsLabel lower raw 3

to_rfc1123_idempotent_example :
    to_rfc1123 lower (to_rfc1123 lower raw 62) 62 ≡ to_rfc1123 lower raw 62
to_rfc1123_idempotent_example = to_rfc1123_idempotent lower raw 62 lower-KeepsLabels

length-generate_name_example : length (generate_name lower [] raw) ≤ 63
length-generate_name_example = length-generate_name lower [] raw
