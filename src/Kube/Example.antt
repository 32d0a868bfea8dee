-- ===== src/Kube/Example.antt =====
-- A library for the tests: errors are texts and times are numbers.
use etos.Prelude.{
  ℕ, ltb, ◌≡◌, ◌≢◌, refl, inl, inr, Bool, true, false, ◌&&◌, ◌||◌, Option, none, some, String, ◌<>◌,
  List, [], ◌∷◌, arith, if◌then◌else◌, ◌~◌, eq_iff, Bool-cases,
}
use etos.Kube.{Condition, Library, IsLawful}

abbrev pub find : List (Condition ℕ) → String → Option (Condition ℕ)
find [] kind = none
find (c ∷ cs) kind = if c.kind ~ kind then some c else find cs kind

abbrev same : Condition ℕ → Condition ℕ → Bool
same d c = (d.status ~ c.status) && ((d.reason ~ c.reason) && (d.message ~ c.message))

-- The condition `d` with what `c` says.
abbrev renewed : ℕ → Condition ℕ → Condition ℕ → Condition ℕ
renewed t d c = record {
  kind = d.kind;
  status = c.status;
  reason = c.reason;
  message = c.message;
  last_transition_time = if d.status ~ c.status then d.last_transition_time else t;
}

abbrev pub set : ℕ → List (Condition ℕ) → Condition ℕ → List (Condition ℕ) × Bool
set t [] c = ((record c { last_transition_time = t }) ∷ [], true)
set t (d ∷ cs) c =
    let rest = set t cs c in
    if d.kind ~ c.kind
    then (if same d c then (d ∷ cs, false) else (renewed t d c ∷ cs, true))
    else (d ∷ rest.0, rest.1)

abbrev contains : List String → String → Bool
contains [] f = false
contains (g ∷ fs) f = (g ~ f) || contains fs f

abbrev remove : List String → String → List String
remove [] f = []
remove (g ∷ fs) f = let rest = remove fs f in if g ~ f then rest else g ∷ rest

abbrev has_value : Option (Condition ℕ) → String → Bool
has_value none status = false
has_value (some c) status = c.status ~ status

abbrev join : Option String → Option String → Option String
join none b = b
join (some a) none = some a
join (some a) (some b) = some (a <> b)

abbrev pub library : Library String ℕ
library = record {
  find_status_condition = find;
  set_status_condition = set;
  is_status_condition_present_and_equal = λ cs kind status. has_value (find cs kind) status;
  contains_finalizer = contains;
  add_finalizer = λ fs f. f ∷ remove fs f;
  remove_finalizer = λ fs f. (remove fs f, contains fs f);
  is_not_found = λ e. e ~ "not found";
  is_conflict = λ e. e ~ "conflict";
  errorf = λ e. e;
  error_text = λ e. e;
  join = join;
  zero_time = 0;
  after = λ a b. ltb b a;
}

find-set :
    (t : ℕ) (cs : List (Condition ℕ)) (c : Condition ℕ)
    → (d : Condition ℕ) × (find (set t cs c).0 c.kind ≡ some d)
      × (d.status ≡ c.status)
      × (d.reason ≡ c.reason)
      × (d.message ≡ c.message)
find-set t [] c =
    (record c { last_transition_time = t }, ground (arith, eq_iff c.kind c.kind), refl, refl, refl)
find-set t (d ∷ cs) c = elim (Bool-cases (d.kind ~ c.kind)) [
  | inl this ↦ elim (Bool-cases (same d c)) [
    | inl e ↦ (
      d,
      ground arith,
      ground (arith, eq_iff d.status c.status),
      ground (arith, eq_iff d.reason c.reason),
      ground (arith, eq_iff d.message c.message),
    )
    | inr e ↦ (renewed t d c, ground arith, refl, refl, refl)
  ]
  | inr other ↦ let (x, found, s, r, m) = find-set t cs c in (x, ground (arith, found), s, r, m)
]

find-set_ne :
    (t : ℕ) (cs : List (Condition ℕ)) (c : Condition ℕ) (kind : String)
    → c.kind ≢ kind
    → find (set t cs c).0 kind ≡ find cs kind
find-set_ne t [] c kind ne = ground (arith, eq_iff c.kind kind)
find-set_ne t (d ∷ cs) c kind ne =
    ground (arith, find-set_ne t cs c kind ne, eq_iff d.kind kind, eq_iff d.kind c.kind)

set_unchanged :
    (t : ℕ) (cs : List (Condition ℕ)) (c : Condition ℕ)
    → (set t cs c).1 ≡ false
    → (set t cs c).0 ≡ cs
set_unchanged t [] c h = cc
set_unchanged t (d ∷ cs) c h = ground (arith, set_unchanged t cs c)

contains-remove : (fs : List String) (f : String) → contains (remove fs f) f ≡ false
contains-remove [] f = refl
contains-remove (g ∷ fs) f = ground (arith, contains-remove fs f)

join_left : (e : String) (o : Option String) → join (some e) o ≢ none
join_left e none h = cc
join_left e (some x) h = cc

join_right : (o : Option String) (e : String) → join o (some e) ≢ none
join_right none e h = cc
join_right (some x) e h = cc

contains-add : (fs : List String) (f : String) → contains (f ∷ remove fs f) f ≡ true
contains-add fs f = ground (arith, eq_iff f f)

pub library-IsLawful : IsLawful library
library-IsLawful = record {
  find-set = find-set;
  find-set_ne = find-set_ne;
  set_unchanged = set_unchanged;
  contains-add = contains-add;
  contains-remove = contains-remove;
  remove_changed = λ fs f. refl;
  join_none = refl;
  join_left = join_left;
  join_right = join_right;
}
