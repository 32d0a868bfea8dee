-- ===== src/Controller.antt =====
-- internal/controller: what the controllers share, from utilities.go, providers.go and the package
-- `status`.
pub mod Reasons
pub mod Quiet
use Reasons.{status_available}
use etos.Prelude.{
  Bool, true, false, not, ◌&&◌, ◌||◌, Option, none, some, String, ◌<>◌, List, [], ◌∷◌,
  if◌then◌else◌, ◌~◌,
}
use etos.Kube.{Condition, OwnerReference, Library}
use etos.Kube.Monad.{Sys, Result, ok, err, M, ◌>>=◌, pure, ask}
use etos.Jobs.Types.{verdict_none, verdict_inconclusive}
use etos.Api.{Provider, Providers}

abbrev pub release_finalizer : String
release_finalizer = "etos.eiffel-community.github.io/release"

-- A ctrl.Result. The times of `RequeueAfter` are seconds.
pub data Outcome (Span : Type 0) : Type 0 where
  done requeue : Outcome Span
  requeue_after : Span → Outcome Span

unfoldable pub owned_by_environment : List OwnerReference → Bool
owned_by_environment [] = false
owned_by_environment (o ∷ os) = (o.kind ~ "Environment") || owned_by_environment os

-- The verdict after setInconclusiveVerdictIfUnset, and whether it was set.
unfoldable pub set_inconclusive_verdict_if_unset : String → String × Bool
set_inconclusive_verdict_if_unset verdict =
    if (verdict ~ "") || (verdict ~ verdict_none)
    then (verdict_inconclusive, true)
    else (verdict, false)

module _ {E Time : Type 0} (L : Library E Time) where
  unfoldable pub is_status_reason : List (Condition Time) → String → String → Bool
  is_status_reason conditions kind reason = elim (L.find_status_condition conditions kind) [
    | none ↦ false
    | some c ↦ c.reason ~ reason
  ]

  -- A controller's SetStatusCondition, which reads the clock.
  abbrev pub set_condition :
      {W C : Type 0}
      → (W → Time × W)
      → List (Condition Time)
      → Condition Time
      → M W C (List (Condition Time) × Bool)
  set_condition now conditions c = do t ← ask now; pure (L.set_status_condition t conditions c)

  -- What a reconciliation returns after an update, of which a conflict is no error.
  unfoldable pub update_outcome : {A Span : Type 0} → Result E A → Outcome Span × Option E
  update_outcome (ok _) = (done, none)
  update_outcome (err e) = if L.is_conflict e then (requeue, none) else (done, some e)

-- Get of a provider, by namespace and name.
abbrev pub GetProvider : Type 0 → Type 0 → Type 0 → Type 0
GetProvider W E Time = String → String → W → Result E (Provider Time) × W

module _ {W C E Time : Type 0} (L : Library E Time) (get : GetProvider W E Time) where
  pub check_provider : String → String → M W C (Option E)
  check_provider name namespace = do
    provider ← ask (get namespace name)
    pure (elim provider [
      | err e ↦ some e
      | ok p ↦
          if L.is_status_condition_present_and_equal p.conditions status_available "True"
          then none
          else some (L.errorf ("provider '" <> (name <> "' does not have a status field")))
    ])

  -- The three providers in turn, up to the first that is not available.
  unfoldable pub check_providers : String → Providers → M W C (Option E)
  unfolding check_provider
  check_providers namespace providers = do
    iut ← check_provider providers.iut namespace
    elim iut [
      | some e ↦ pure (some e)
      | none ↦ check_provider providers.execution_space namespace >>= λ execution_space.
          elim execution_space [
            | some e ↦ pure (some e)
            | none ↦ check_provider providers.log_area namespace
          ]
    ]
