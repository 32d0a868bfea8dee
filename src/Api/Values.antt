-- ===== src/Api/Values.antt =====
-- api/v1alpha1/common_types.go: a value that is written out or stands in a secret or a config map.
use etos.Prelude.{Option, none, some, String, ◌<>◌, List, [], ◌∷◌, if◌then◌else◌, ◌~◌}
use etos.Kube.{Library}
use etos.Kube.Monad.{Result, ok, err, M, ◌>>=◌, pure, ask}

pub record KeySelector : Type 0 where
  pub name : String
  pub key : String

pub record Var : Type 0 where
  pub value : String
  pub config_map_key_ref : Option KeySelector
  pub secret_key_ref : Option KeySelector

-- The pointer Password is never nil: the resource definition has a default for it.
pub record RabbitMq : Type 0 where
  pub host : String
  pub exchange : String
  pub password : Var
  pub username : String
  pub port : String
  pub ssl : String
  pub vhost : String
  pub stream_port : String
  pub stream_name : String

pub lookup : {V : Type 0} → String → List (String × V) → Option V
lookup k [] = none
lookup k ((j, v) ∷ m) = if j ~ k then some v else lookup k m

-- The data of a secret and of a config map, by namespace and name.
pub record VarApi (W E : Type 0) : Type 0 where
  pub get_secret : String → String → W → Result E (List (String × String)) × W
  pub get_config_map : String → String → W → Result E (List (String × String)) × W

module _ {E Time : Type 0} (L : Library E Time) where
  -- The value of the key, or the error that it does not exist.
  pub select : String → KeySelector → String → List (String × String) → Result E String
  unfolding lookup
  select what selector namespace values = elim (lookup selector.key values) [
    | none ↦ err (
        L.errorf (
          selector.key
          <> (" does not exist in " <> (what <> (" " <> (namespace <> ("/" <> selector.name)))))))
    | some v ↦ ok v
  ]

module _ {W C E Time : Type 0} (L : Library E Time) (api : VarApi W E) where
  pub get_from_secret_key_selector : KeySelector → String → M W C (Result E String)
  unfolding select
  get_from_secret_key_selector selector namespace = do
    obj ← ask (api.get_secret namespace selector.name)
    pure (elim obj [ err e ↦ err e | ok values ↦ select L "secret" selector namespace values ])

  pub get_from_config_map_key_selector : KeySelector → String → M W C (Result E String)
  unfolding select
  get_from_config_map_key_selector selector namespace = do
    obj ← ask (api.get_config_map namespace selector.name)
    pure (elim obj [ err e ↦ err e | ok values ↦ select L "configmap" selector namespace values ])

  -- Get: the value, else the secret, else the config map.
  unfoldable pub get : Var → String → M W C (Result E String)
  unfolding get_from_secret_key_selector get_from_config_map_key_selector
  get v namespace =
      if v.value ~ ""
      then elim v.secret_key_ref [
        | some selector ↦ get_from_secret_key_selector selector namespace
        | none ↦ elim v.config_map_key_ref [
          | some selector ↦ get_from_config_map_key_selector selector namespace
          | none ↦ pure (err (L.errorf "found no source for key"))
        ]
      ]
      else pure (ok v.value)
