-- ===== src/Controller/Quiet.antt =====
-- Checking providers makes no call that changes something.
use etos.Prelude.{◌≡◌, String, arith}
use etos.Kube.{Library}
use etos.Kube.Monad.{Sys}
use etos.Api.{Providers}
use etos.Controller.{GetProvider, check_provider, check_providers}

module _ {W C E Time : Type 0} (L : Library E Time) (get : GetProvider W E Time) where
  check_provider-calls :
      (name namespace : String) (s : Sys W C)
      → (check_provider L get name namespace s).1.calls ≡ s.calls
  unfolding check_provider
  check_provider-calls name namespace s = ground arith

  pub check_providers-calls :
      (namespace : String) (providers : Providers) (s : Sys W C)
      → (check_providers L get namespace providers s).1.calls ≡ s.calls
  unfolding check_providers
  check_providers-calls namespace providers s = ground arith
