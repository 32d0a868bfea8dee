-- ===== src/Resource/Provider.antt =====
-- internal/controller/provider_controller.go: the reconciler of providers, which marks every provider as
-- available.
use etos.Prelude.{ℕ, Option, none, some, String, if◌then◌else◌}
use etos.Kube.{Library, condition}
use etos.Kube.Monad.{Result, ok, err, M, ◌>>=◌, pure, ask, tell}
use etos.Api.{Provider}
use etos.Controller.{Outcome, done, GetProvider, set_condition}
use etos.Controller.Reasons.{status_available, reason_active}

pub record ProviderApi (W E Time : Type 0) : Type 0 where
  pub now : W → Time × W
  pub get : GetProvider W E Time
  pub update_status : Provider Time → W → Result E (Provider Time) × W

-- The outcome of the update of a provider's status, which is the only call.
abbrev pub after_update : {E Time : Type 0} → Result E (Provider Time) → Outcome ℕ × Option E
after_update (ok _) = (done, none)
after_update (err e) = (done, some e)

module _ {W E Time : Type 0} (L : Library E Time) (api : ProviderApi W E Time) where
  -- What follows the reading of the provider.
  unfoldable pub mark_available :
      Result E (Provider Time) → M W (Provider Time) (Outcome ℕ × Option E)
  mark_available (err e) = if L.is_not_found e then pure (done, none) else pure (done, some e)
  mark_available (ok provider) =
      set_condition L api.now provider.conditions
        (condition L status_available "True" reason_active "Provider is up and running")
      >>= λ set.
          let available = record provider { conditions = set.0 } in
          tell available (api.update_status available) >>= λ r. pure (after_update r)

  -- Reconcile, by namespace and name.
  unfoldable pub reconcile_provider : String → String → M W (Provider Time) (Outcome ℕ × Option E)
  unfolding mark_available
  reconcile_provider namespace name = ask (api.get namespace name) >>= λ found. mark_available found
