-- ===== src/Names/Fixed.antt =====
-- A text that is a label already is kept by toRFC1123.
use etos.Prelude.{
  ℕ, ◌≤◌, ◌≡◌, refl, ap, Bool, true, false, not, List, [], ◌∷◌, map, arith, length, length-append,
  ◌==◌,
}
use etos.Names.{
  hyphen, is_alphanumeric, replace_runs, trim_left, trim_right, cons_unless_last, trim, trim_suffix,
  cut, to_rfc1123, generate_name,
}
use etos.Names.Rfc1123.{is_clean, ends_well, IsTidy, to_rfc1123-IsTidy}

-- What is assumed of the Unicode table: it keeps the digits, the small letters and the hyphen.
pub record KeepsLabels (lower : ℕ → ℕ) : Type 0 where
  pub alphanumeric : (c : ℕ) → is_alphanumeric c ≡ true → lower c ≡ c
  pub dash : lower hyphen ≡ hyphen

module _ (lower : ℕ → ℕ) (keeps : KeepsLabels lower) where
  map-lower_clean : (b : Bool) (s : List ℕ) → is_clean b s ≡ true → map lower s ≡ s
  map-lower_clean b [] h = refl
  map-lower_clean b (c ∷ s) h =
      ground (arith, keeps.alphanumeric c, keeps.dash, map-lower_clean (not (is_alphanumeric c)) s)

replace_runs_clean : (b : Bool) (s : List ℕ) → is_clean b s ≡ true → replace_runs b s ≡ s
unfolding replace_runs
replace_runs_clean b [] h = refl
replace_runs_clean b (c ∷ s) h = ground (arith, replace_runs_clean (not (is_alphanumeric c)) s)

trim_left_clean : (s : List ℕ) → is_clean true s ≡ true → trim_left s ≡ s
unfolding trim_left is_alphanumeric
trim_left_clean [] h = refl
trim_left_clean (c ∷ s) h = ground arith

cons_unless_last_ended :
    (a : Bool) (c : ℕ) (s : List ℕ) → ends_well a (c ∷ s) ≡ true → cons_unless_last c s ≡ c ∷ s
cons_unless_last_ended a c [] h = ground arith
cons_unless_last_ended a c (d ∷ s) h = refl

trim_right_ended : (a : Bool) (s : List ℕ) → ends_well a s ≡ true → trim_right s ≡ s
unfolding trim_right
trim_right_ended a [] h = refl
trim_right_ended a (c ∷ s) h =
    rw (trim_right_ended (c == hyphen) s h) (cons_unless_last_ended a c s h)

trim_suffix_ended : (a : Bool) (s : List ℕ) → ends_well a s ≡ true → trim_suffix s ≡ s
unfolding trim_suffix
trim_suffix_ended a [] h = refl
trim_suffix_ended a (c ∷ []) h = ground arith
trim_suffix_ended a (c ∷ d ∷ s) h = ap (λ t. c ∷ t) (trim_suffix_ended (c == hyphen) (d ∷ s) h)

clean_any : (s : List ℕ) → is_clean true s ≡ true → is_clean false s ≡ true
clean_any [] h = refl
clean_any (c ∷ s) h = ground arith

cut_short : (s : List ℕ) (n : ℕ) → length s ≤ n → cut s n ≡ s
unfolding cut
cut_short s n h = ground arith

-- A text that is tidy already and fits the limit is returned as it is, if lower casing keeps small letters, digits and the
-- hyphen.
pub to_rfc1123_fixed :
    (lower : ℕ → ℕ) (s : List ℕ) (maxlen : ℕ)
    → KeepsLabels lower
    → IsTidy s
    → length s ≤ maxlen
    → to_rfc1123 lower s maxlen ≡ s
unfolding to_rfc1123 trim
to_rfc1123_fixed lower s maxlen keeps l fits =
    rw
      (
        map-lower_clean lower keeps true s l.clean,
        replace_runs_clean false s (clean_any s l.clean),
        trim_left_clean s l.clean,
        trim_right_ended false s l.ended,
        cut_short s maxlen fits,
      )
      (trim_suffix_ended false s l.ended)

-- toRFC1123 is idempotent, if lower casing keeps small letters, digits and the hyphen.
pub to_rfc1123_idempotent :
    (lower : ℕ → ℕ) (s : List ℕ) (maxlen : ℕ)
    → KeepsLabels lower
    → to_rfc1123 lower (to_rfc1123 lower s maxlen) maxlen ≡ to_rfc1123 lower s maxlen
to_rfc1123_idempotent lower s maxlen keeps =
    let (tidy, fits) = to_rfc1123-IsTidy lower s maxlen in
    to_rfc1123_fixed lower (to_rfc1123 lower s maxlen) maxlen keeps tidy fits

-- A generated prefix fits the 63 characters that a GenerateName may have.
pub length-generate_name :
    (lower : ℕ → ℕ) (name request_name : List ℕ)
    → length (generate_name lower name request_name) ≤ 63
unfolding generate_name
length-generate_name lower [] request_name = omega (
  arith,
  length-append (to_rfc1123 lower request_name 62) (hyphen ∷ []),
  (to_rfc1123-IsTidy lower request_name 62).1,
)
length-generate_name lower (c ∷ name) request_name = omega arith
