-- ===== src/Names/Label.antt =====
-- When toRFC1123 returns a label, and when nothing is left of the text.
use etos.Prelude.{
  ℕ, zero, suc, ◌≤◌, ◌≡◌, ◌≢◌, ◌⊎◌, refl, ◌∙◌, Bool, true, false, not, ◌||◌, inl, inr, List, [],
  ◌∷◌, map, arith, length, take, ltb, Bool-cases,
}
use etos.Names.{
  is_alphanumeric, replace_runs, trim_left, trim_right, cons_unless_last, trim, trim_suffix, cut,
  to_rfc1123,
}
use etos.Names.Rfc1123.{
  is_clean, IsTidy, hyphen_other, hyphen_not_alphanumeric, replace_runs-clean, trim-clean,
  to_rfc1123-IsTidy,
}

-- A label: letters a-z, digits and single hyphens, none of them first or last, and not empty.
pub record IsLabel (s : List ℕ) : Type 0 where
  pub some_text : s ≢ []
  pub tidy : IsTidy s

-- Is a letter a-z or a digit there?
abbrev pub has_alphanumeric : List ℕ → Bool
has_alphanumeric [] = false
has_alphanumeric (c ∷ s) = is_alphanumeric c || has_alphanumeric s

has-replace_runs :
    (b : Bool) (s : List ℕ) → has_alphanumeric (replace_runs b s) ≡ has_alphanumeric s
unfolding replace_runs
has-replace_runs b [] = refl
has-replace_runs b (c ∷ s) =
    ground (arith, hyphen_other, has-replace_runs (not (is_alphanumeric c)) s)

has-trim_left : (s : List ℕ) → has_alphanumeric (trim_left s) ≡ has_alphanumeric s
unfolding trim_left
has-trim_left [] = refl
has-trim_left (c ∷ s) = ground (arith, hyphen_not_alphanumeric c, has-trim_left s)

has-cons_unless_last :
    (c : ℕ) (s : List ℕ) → has_alphanumeric (cons_unless_last c s) ≡ has_alphanumeric (c ∷ s)
has-cons_unless_last c [] = ground (arith, hyphen_not_alphanumeric c)
has-cons_unless_last c (d ∷ s) = refl

has-trim_right : (s : List ℕ) → has_alphanumeric (trim_right s) ≡ has_alphanumeric s
unfolding trim_right
has-trim_right [] = refl
has-trim_right (c ∷ s) = has-cons_unless_last c (trim_right s) ∙ rw (has-trim_right s) refl

has-trim : (s : List ℕ) → has_alphanumeric (trim s) ≡ has_alphanumeric s
unfolding trim
has-trim s = has-trim_right (trim_left s) ∙ has-trim_left s

-- A clean text starts with a letter or a digit, if it is not empty.
clean_first : (c : ℕ) (s : List ℕ) → is_clean true (c ∷ s) ≡ true → is_alphanumeric c ≡ true
clean_first c s h = ground arith

clean_none : (s : List ℕ) → is_clean true s ≡ true → has_alphanumeric s ≡ false → s ≡ []
clean_none [] h nothing = refl
clean_none (c ∷ s) h nothing = absurd (ground (arith, clean_first c s h))

trim_suffix_first : (c : ℕ) (s : List ℕ) → is_alphanumeric c ≡ true → trim_suffix (c ∷ s) ≢ []
unfolding trim_suffix
trim_suffix_first c [] h empty = ground (arith, hyphen_not_alphanumeric c h)
trim_suffix_first c (d ∷ s) h empty = cc

-- A clean text with a letter or a digit keeps its first one.
cut_first :
    (s : List ℕ) (n : ℕ)
    → is_clean true s ≡ true
    → has_alphanumeric s ≡ true
    → trim_suffix (cut s (suc n)) ≢ []
unfolding cut
cut_first [] n h some_there = cc
cut_first (c ∷ s) n h some_there = elim (Bool-cases (ltb (suc n) (length (c ∷ s)))) [
  | inl long ↦ rw (long, cut) (trim_suffix_first c (take n s) (clean_first c s h))
  | inr short ↦ rw (short, cut) (trim_suffix_first c s (clean_first c s h))
]

cut_nothing : (s : List ℕ) (n : ℕ) → s ≡ [] → trim_suffix (cut s n) ≡ []
unfolding cut trim_suffix
cut_nothing [] n empty = ground arith
cut_nothing (c ∷ s) n empty = cc

cut_zero : (s : List ℕ) → trim_suffix (cut s 0) ≡ []
unfolding cut trim_suffix
cut_zero [] = refl
cut_zero (c ∷ s) = ground arith

module _ (lower : ℕ → ℕ) where
  -- toRFC1123 returns at most maxlen code points. If a letter a-z or a digit is there after lower
  -- casing and the limit is not 0, they are a label (letters a-z, digits and single hyphens, none of
  -- them first or last, and not empty); otherwise the result is empty.
  pub to_rfc1123-IsLabel :
      (s : List ℕ) (maxlen : ℕ)
      → (length (to_rfc1123 lower s maxlen) ≤ maxlen)
        × (((has_alphanumeric (map lower s) ≡ true)
              × (1 ≤ maxlen)
              × IsLabel (to_rfc1123 lower s maxlen))
            ⊎ (((has_alphanumeric (map lower s) ≡ false) ⊎ (maxlen ≡ 0))
                × (to_rfc1123 lower s maxlen ≡ [])))
  unfolding to_rfc1123
  to_rfc1123-IsLabel s zero =
      let dashed = replace_runs false (map lower s) in
      ((to_rfc1123-IsTidy lower s 0).1, inr (inr refl, cut_zero (trim dashed)))
  to_rfc1123-IsLabel s (suc n) =
      let dashed = replace_runs false (map lower s) in
      let clean = trim-clean dashed (replace_runs-clean false (map lower s)) in
      let same = has-trim dashed ∙ has-replace_runs false (map lower s) in
      let (tidy, fits) = to_rfc1123-IsTidy lower s (suc n) in
      (
        fits,
        elim (Bool-cases (has_alphanumeric (map lower s))) [
          | inl some_there ↦ inl (
            some_there,
            omega arith,
            record { some_text = cut_first (trim dashed) n clean (same ∙ some_there); tidy = tidy },
          )
          | inr nothing ↦ inr (
            inl nothing,
            cut_nothing (trim dashed) (suc n) (clean_none (trim dashed) clean (same ∙ nothing)),
          )
        ],
      )
