-- ===== src/Names.antt =====
-- pkg/provider/provider.go: toRFC1123, and the generated names of the resources that the providers
-- create from it.
--
-- A text is the list of its code points. After the replacement every code point is ASCII, so from
-- there on a code point is a byte, as `len(s)` and `s[:maxlen]` count them. `strings.ToLower` maps each
-- code point by the Unicode table, which is the parameter `lower`.
pub mod Rfc1123
pub mod Label
pub mod Fixed
mod Tests
use etos.Prelude.{
  ℕ, Bool, true, false, not, ◌&&◌, ◌||◌, List, [], ◌∷◌, ◌++◌, map, length, take, ltb, leb, ◌==◌,
  if◌then◌else◌,
}

abbrev pub hyphen : ℕ
hyphen = b'-'

-- The class [a-z0-9].
pub is_alphanumeric : ℕ → Bool
is_alphanumeric c = (leb b'a' c && leb c b'z') || (leb b'0' c && leb c b'9')

-- ReplaceAllString of `[^a-z0-9]+` by "-": the flag says that the run it stands in has its hyphen.
pub replace_runs : Bool → List ℕ → List ℕ
replace_runs in_run [] = []
replace_runs in_run (c ∷ s) =
    let rest = replace_runs (not (is_alphanumeric c)) s in
    if is_alphanumeric c then c ∷ rest else if in_run then rest else hyphen ∷ rest

-- strings.Trim(s, "-").
pub trim_left : List ℕ → List ℕ
trim_left [] = []
trim_left (c ∷ s) = let rest = trim_left s in if c == hyphen then rest else c ∷ s

abbrev pub cons_unless_last : ℕ → List ℕ → List ℕ
cons_unless_last c [] = if c == hyphen then [] else c ∷ []
cons_unless_last c (d ∷ s) = c ∷ d ∷ s

pub trim_right : List ℕ → List ℕ
trim_right [] = []
trim_right (c ∷ s) = cons_unless_last c (trim_right s)

pub trim : List ℕ → List ℕ
unfolding trim_left trim_right
trim s = trim_right (trim_left s)

-- strings.TrimSuffix(s, "-").
pub trim_suffix : List ℕ → List ℕ
trim_suffix [] = []
trim_suffix (c ∷ []) = if c == hyphen then [] else c ∷ []
trim_suffix (c ∷ d ∷ s) = c ∷ trim_suffix (d ∷ s)

pub cut : List ℕ → ℕ → List ℕ
cut s maxlen = if ltb maxlen (length s) then take maxlen s else s

module _ (lower : ℕ → ℕ) where
  pub to_rfc1123 : List ℕ → ℕ → List ℕ
  unfolding replace_runs trim trim_suffix cut is_alphanumeric
  to_rfc1123 s maxlen = trim_suffix (cut (trim (replace_runs false (map lower s))) maxlen)

  -- The GenerateName that NewIUT, NewLogArea and NewExecutionSpace give when no name is asked for.
  pub generate_name : List ℕ → List ℕ → List ℕ
  unfolding to_rfc1123
  generate_name name request_name = elim name [
    | [] ↦ to_rfc1123 request_name 62 ++ hyphen ∷ []
    | _ ∷ _ ↦ []
  ]
