-- ===== src/Kube.antt =====
-- What the controllers use of Kubernetes: object metadata, status conditions, and the functions of
-- k8s.io/apimachinery and sigs.k8s.io/controller-runtime on them, which are not code of this
-- repository: they are the fields of `Library`, and `IsLawful` states what the controllers rely on.
--
-- A controller is a state passing action over `Sys`: the state of the API server and of the clock, of
-- which nothing is assumed, and the list of the calls made, last first. A Go `error` is an `Option E`.
pub mod Monad
pub mod Pod
pub mod Example
use etos.Prelude.{
  ◌≡◌, ◌≢◌, Bool, true, false, Option, none, some, String, List, [], ◌∷◌, if◌then◌else◌, ◌~◌,
}

-- metav1.Condition. `kind` is its field Type.
pub record Condition (Time : Type 0) : Type 0 where
  pub kind : String
  pub status : String
  pub reason : String
  pub message : String
  pub last_transition_time : Time

-- metav1.OwnerReference, as far as it is read.
pub record OwnerReference : Type 0 where
  pub kind : String
  pub name : String

-- metav1.ObjectMeta, as far as it is read. A deletion timestamp that is nil or zero is `none`; maps
-- are association lists.
pub record ObjectMeta (Time : Type 0) : Type 0 where
  pub name : String
  pub namespace : String
  pub labels : List (String × String)
  pub annotations : List (String × String)
  pub finalizers : List String
  pub owner_references : List OwnerReference
  pub deletion_timestamp : Option Time

-- `IsZero` on a deletion timestamp.
abbrev pub is_zero {ℓ} : {A : Type ℓ} → Option A → Bool
is_zero none = true
is_zero (some t) = false

-- A write to a map.
unfoldable pub set_key : List (String × String) → String → String → List (String × String)
set_key [] key value = (key, value) ∷ []
set_key ((k, v) ∷ m) key value =
    let rest = set_key m key value in if k ~ key then (k, value) ∷ m else (k, v) ∷ rest

-- Reading a map: a missing key gives the zero value, the empty text.
abbrev pub at_key : List (String × String) → String → String
at_key [] key = ""
at_key ((k, v) ∷ m) key = if k ~ key then v else at_key m key

pub record Library (E Time : Type 0) : Type 0 where
  -- meta
  pub find_status_condition : List (Condition Time) → String → Option (Condition Time)
  -- The time is the clock's, which the function reads for a new transition time.
  pub set_status_condition :
      Time → List (Condition Time) → Condition Time → List (Condition Time) × Bool
  pub is_status_condition_present_and_equal : List (Condition Time) → String → String → Bool
  -- controllerutil
  pub contains_finalizer : List String → String → Bool
  pub add_finalizer : List String → String → List String
  pub remove_finalizer : List String → String → List String × Bool
  -- apierrors
  pub is_not_found : E → Bool
  pub is_conflict : E → Bool
  -- errors, fmt
  pub errorf : String → E
  pub error_text : E → String
  pub join : Option E → Option E → Option E
  -- metav1.Time
  pub zero_time : Time
  pub after : Time → Time → Bool

-- A condition as the source writes it, with no transition time.
module _ {E Time : Type 0} (L : Library E Time) where
  abbrev pub condition : String → String → String → String → Condition Time
  condition kind status reason message = record {
    kind = kind;
    status = status;
    reason = reason;
    message = message;
    last_transition_time = L.zero_time;
  }

  -- What the documentation of those functions says of them.
  pub record IsLawful : Type 0 where
    -- After SetStatusCondition the condition of that type is there with what was set.
    pub find-set :
        (t : Time) (cs : List (Condition Time)) (c : Condition Time)
        → (d : Condition Time) × (L.find_status_condition (L.set_status_condition t cs c).0 c.kind
            ≡ some d)
          × (d.status ≡ c.status)
          × (d.reason ≡ c.reason)
          × (d.message ≡ c.message)
    -- The conditions of the other types are kept.
    pub find-set_ne :
        (t : Time) (cs : List (Condition Time)) (c : Condition Time) (kind : String)
        → c.kind ≢ kind
        → L.find_status_condition (L.set_status_condition t cs c).0 kind
          ≡ L.find_status_condition cs kind
    -- It returns false exactly if it had nothing to change.
    pub set_unchanged :
        (t : Time) (cs : List (Condition Time)) (c : Condition Time)
        → (L.set_status_condition t cs c).1 ≡ false
        → (L.set_status_condition t cs c).0 ≡ cs
    pub contains-add :
        (fs : List String) (f : String) → L.contains_finalizer (L.add_finalizer fs f) f ≡ true
    pub contains-remove :
        (fs : List String) (f : String) → L.contains_finalizer (L.remove_finalizer fs f).0 f ≡ false
    pub remove_changed :
        (fs : List String) (f : String) → (L.remove_finalizer fs f).1 ≡ L.contains_finalizer fs f
    pub join_none : L.join none none ≡ none
    pub join_left : (e : E) (o : Option E) → L.join (some e) o ≢ none
    pub join_right : (o : Option E) (e : E) → L.join o (some e) ≢ none
