-- ===== src/Names/Rfc1123.antt =====
-- What toRFC1123 returns: letters, digits and single hyphens, with none at either end.
use etos.Prelude.{
  ℕ, zero, suc, ◌≤◌, ◌≡◌, refl, Bool, true, false, not, ◌&&◌, List, [], ◌∷◌, map, arith, length,
  length-take-le, take, ◌==◌, if◌then◌else◌,
}
use etos.Names.{
  hyphen, is_alphanumeric, replace_runs, trim_left, trim_right, cons_unless_last, trim, trim_suffix,
  cut, to_rfc1123,
}

-- Only letters, digits and hyphens, no hyphen after a hyphen; the flag says that one stands before.
abbrev pub is_clean : Bool → List ℕ → Bool
is_clean after [] = true
is_clean after (c ∷ s) =
    let rest = is_clean (not (is_alphanumeric c)) s in
    if is_alphanumeric c then rest else (c == hyphen) && (not after && rest)

-- The last code point is no hyphen; the flag says that the one before is.
abbrev pub ends_well : Bool → List ℕ → Bool
ends_well after [] = not after
ends_well after (c ∷ s) = ends_well (c == hyphen) s

-- Clean from the start, so that it does not begin with a hyphen, and it does not end with one.
pub record IsTidy (s : List ℕ) : Type 0 where
  pub clean : is_clean true s ≡ true
  pub ended : ends_well false s ≡ true

pub hyphen_not_alphanumeric : (c : ℕ) → is_alphanumeric c ≡ true → (c == hyphen) ≡ false
unfolding is_alphanumeric
hyphen_not_alphanumeric c h = ground arith

pub hyphen_other : is_alphanumeric hyphen ≡ false
unfolding is_alphanumeric
hyphen_other = refl

pub replace_runs-clean : (b : Bool) (s : List ℕ) → is_clean b (replace_runs b s) ≡ true
unfolding replace_runs
replace_runs-clean b [] = refl
replace_runs-clean b (c ∷ s) =
    ground (arith, hyphen_other, replace_runs-clean (not (is_alphanumeric c)) s)

clean_weaken : (s : List ℕ) → is_clean true s ≡ true → is_clean false s ≡ true
clean_weaken [] h = refl
clean_weaken (c ∷ s) h = ground arith

trim_left-clean : (s : List ℕ) → is_clean false s ≡ true → is_clean true (trim_left s) ≡ true
unfolding trim_left
trim_left-clean [] h = refl
trim_left-clean (c ∷ s) h =
    ground (arith, hyphen_not_alphanumeric c, trim_left-clean s, clean_weaken s)

cons_unless_last-clean :
    (b : Bool) (c : ℕ) (s : List ℕ)
    → is_clean b (c ∷ s) ≡ true
    → is_clean b (cons_unless_last c s) ≡ true
cons_unless_last-clean b c [] h = ground arith
cons_unless_last-clean b c (d ∷ s) h = h

trim_right-clean : (b : Bool) (s : List ℕ) → is_clean b s ≡ true → is_clean b (trim_right s) ≡ true
unfolding trim_right
trim_right-clean b [] h = refl
trim_right-clean b (c ∷ s) h =
    cons_unless_last-clean b c (trim_right s)
      (ground (arith, trim_right-clean (not (is_alphanumeric c)) s))

take-clean : (b : Bool) (n : ℕ) (s : List ℕ) → is_clean b s ≡ true → is_clean b (take n s) ≡ true
take-clean b zero s h = refl
take-clean b (suc n) [] h = refl
take-clean b (suc n) (c ∷ s) h = ground (arith, take-clean (not (is_alphanumeric c)) n s)

trim_suffix-clean :
    (b : Bool) (s : List ℕ) → is_clean b s ≡ true → is_clean b (trim_suffix s) ≡ true
unfolding trim_suffix
trim_suffix-clean b [] h = refl
trim_suffix-clean b (c ∷ []) h = ground arith
trim_suffix-clean b (c ∷ d ∷ s) h =
    ground (arith, trim_suffix-clean (not (is_alphanumeric c)) (d ∷ s))

trim_suffix-ends :
    (a b : Bool) (c : ℕ) (s : List ℕ)
    → is_clean b (c ∷ s) ≡ true
    → (a ≡ true → b ≡ true)
    → ends_well a (trim_suffix (c ∷ s)) ≡ true
unfolding trim_suffix
trim_suffix-ends a b c [] h imp = ground (arith, hyphen_not_alphanumeric c)
trim_suffix-ends a b c (d ∷ s) h imp =
    trim_suffix-ends (c == hyphen) (not (is_alphanumeric c)) d s (ground arith)
      (λ e. ground (arith, hyphen_not_alphanumeric c))

trim_suffix-IsTidy : (s : List ℕ) → is_clean true s ≡ true → IsTidy (trim_suffix s)
trim_suffix-IsTidy [] h = unfold trim_suffix in record { clean = refl; ended = refl }
trim_suffix-IsTidy (c ∷ s) h = record {
  clean = trim_suffix-clean true (c ∷ s) h;
  ended = trim_suffix-ends false true c s h (λ e. refl);
}

length-trim_suffix : (s : List ℕ) → length (trim_suffix s) ≤ length s
unfolding trim_suffix
length-trim_suffix [] = omega arith
length-trim_suffix (c ∷ []) = ground arith
length-trim_suffix (c ∷ d ∷ s) = omega (arith, length-trim_suffix (d ∷ s))

cut-clean : (s : List ℕ) (n : ℕ) → is_clean true s ≡ true → is_clean true (cut s n) ≡ true
unfolding cut
cut-clean s n h = ground (arith, take-clean true n s)

length-cut : (s : List ℕ) (n : ℕ) → length (cut s n) ≤ n
unfolding cut
length-cut s n = ground (arith, length-take-le n s)

pub trim-clean : (s : List ℕ) → is_clean false s ≡ true → is_clean true (trim s) ≡ true
unfolding trim
trim-clean s h = trim_right-clean true (trim_left s) (trim_left-clean s h)

-- Whatever the text and the limit, the result is tidy and fits the limit; it may be empty.
pub to_rfc1123-IsTidy :
    (lower : ℕ → ℕ) (s : List ℕ) (maxlen : ℕ)
    → IsTidy (to_rfc1123 lower s maxlen) × (length (to_rfc1123 lower s maxlen) ≤ maxlen)
unfolding to_rfc1123
to_rfc1123-IsTidy lower s maxlen =
    let dashed = replace_runs false (map lower s) in
    (
      trim_suffix-IsTidy (cut (trim dashed) maxlen) (
          cut-clean (trim dashed) maxlen
            (trim-clean dashed (replace_runs-clean false (map lower s)))),
      omega (arith, length-trim_suffix (cut (trim dashed) maxlen), length-cut (trim dashed) maxlen),
    )
