-- ===== src/Config/Kafka/Secured.antt =====
-- What kafka_config makes of an environment that _check_kafka accepts
-- (services/python_common/production_config.py).
use Prim.Native.String.{String}
use signalchord.Prelude.{
  ◌≡◌, refl, sym, ap, ◌∙◌, Bool, true, false, not, ◌&&◌, ◌||◌, Option, none, some, List, [], ◌∷◌,
  Dict, lookup, insert, lookup-insert, ◌=ˢ◌, if◌then◌else◌,
}
use signalchord.Config.Env.{Env, is_missing, TextLibrary, truthy}
use signalchord.Config.Check.{check_kafka}
use signalchord.Config.Secure.{passes, passes-check_kafka}
use signalchord.Config.Kafka.{
  Setting, word, update, with_ca, settings, kafka_config, get_or, base, authenticated,
}

and_inv : (a b : Bool) → a && b ≡ true → (a ≡ true) × (b ≡ true)
and_inv true b h = (refl, h)
and_inv false b h = cc

or_inv : (a b : Bool) → not (a || b) ≡ true → (a ≡ false) × (b ≡ false)
or_inv true b h = cc
or_inv false true h = cc
or_inv false false h = (refl, refl)

-- a value that is there and is not empty
abbrev pub IsNonEmpty : Option String → String → Type 0
IsNonEmpty o value = (o ≡ some value) × ((value =ˢ "") ≡ false)

none_inv :
    (b : Bool) (v : Setting) (o : Option Setting)
    → (if b then some v else o) ≡ none
    → (b ≡ false) × (o ≡ none)
none_inv true v o h = cc
none_inv false v o h = (refl, h)

lookup-update :
    (key : String) (config : Dict Setting) (overrides : List (String × Setting))
    → lookup key overrides ≡ none
    → lookup key (update config overrides) ≡ lookup key config
lookup-update key config [] h = refl
lookup-update key config ((k, v) ∷ overrides) h =
    let (other, rest) = none_inv (k =ˢ key) v (lookup key overrides) h in
    lookup-update key (insert k v config) overrides rest
    ∙ lookup-insert k key v config
    ∙ ap (λ (b : Bool). if b then some v else lookup key config) other

-- the name, the password and the protocol of the settings with both flags, before the overrides
abbrev Has : Dict Setting → String → String → Type 0
Has config key value = lookup key config ≡ some (word value)

module _ (env : Env) where
  abbrev IsComplete : Dict Setting → Type 0
  IsComplete config =
      Has config "security.protocol" "SASL_SSL"
      × Has config "sasl.username" (get_or "" (lookup "KAFKA_SASL_USER" env))
      × Has config "sasl.password" (get_or "" (lookup "KAFKA_SASL_PASSWORD" env))

  if-IsComplete :
      (b : Bool) (x y : Dict Setting)
      → IsComplete (authenticated env x)
      → IsComplete (authenticated env y)
      → IsComplete (authenticated env (if b then x else y))
  if-IsComplete true x y h g = h
  if-IsComplete false x y h g = g

  authenticated-IsComplete :
      (ca : Option String)
      → IsComplete
          (authenticated env (with_ca ca (insert "security.protocol" (word "SASL_SSL") (base env))))
  authenticated-IsComplete none = (refl, refl, refl)
  authenticated-IsComplete (some ca) =
      if-IsComplete (ca =ˢ "") _ _ (refl, refl, refl) (refl, refl, refl)

  settings-IsComplete :
      (tls sasl : Bool) → tls ≡ true → sasl ≡ true → IsComplete (settings tls sasl env)
  settings-IsComplete true true e f = authenticated-IsComplete (lookup "KAFKA_TLS_CA_PEM" env)
  settings-IsComplete true false e f = cc
  settings-IsComplete false sasl e f = cc

set_value :
    (o : Option String)
    → is_missing o ≡ false
    → (value : String) × IsNonEmpty o value × (get_or "" o ≡ value)
set_value none h = cc
set_value (some value) h = (value, (refl, h), refl)

-- a user or a password that is set, and that the settings pass on
abbrev pub IsPassedOn : Dict Setting → String → Option String → Type 0
IsPassedOn config key o =
    (value : String) × IsNonEmpty o value × (lookup key config ≡ some (word value))

module _ (py : TextLibrary) (env : Env) (overrides : List (String × Setting)) where
  abbrev config : Dict Setting
  config = kafka_config py env overrides

  passed_on :
      (key : String) (o : Option String)
      → is_missing o ≡ false
      → lookup key config ≡ some (word (get_or "" o))
      → IsPassedOn config key o
  passed_on key o h e =
      let (value, set, same) = set_value o h in (value, set, e ∙ ap (λ z. some (word z)) same)

  -- The settings that a worker makes of an environment which the production check of Kafka lets
  -- through ask for SASL over TLS and pass on a user and a password that are not empty, whatever else
  -- the environment holds and whatever the worker overrides, if it overrides none of the three.
  pub kafka_config-IsPassedOn :
      passes (check_kafka py env) ≡ true
      → lookup "security.protocol" overrides ≡ none
      → lookup "sasl.username" overrides ≡ none
      → lookup "sasl.password" overrides ≡ none
      → (lookup "security.protocol" (kafka_config py env overrides) ≡ some (word "SASL_SSL"))
        × IsPassedOn (kafka_config py env overrides) "sasl.username" (lookup "KAFKA_SASL_USER" env)
        × IsPassedOn
            (kafka_config py env overrides)
            "sasl.password"
            (lookup "KAFKA_SASL_PASSWORD" env)
  unfolding kafka_config
  kafka_config-IsPassedOn accepted p u s =
      let secure = sym (passes-check_kafka py env) ∙ accepted in
      let (_, h₁) = and_inv _ _ secure in
      let (_, h₂) = and_inv _ _ h₁ in
      let (tls, h₃) = and_inv _ _ h₂ in
      let (sasl, h₄) = and_inv _ _ h₃ in
      let (has_user, has_password) = or_inv _ _ h₄ in
      let d =
        settings (truthy py (lookup "KAFKA_TLS_ENABLED" env))
          (truthy py (lookup "KAFKA_SASL_ENABLED" env)) env in
      let (c₁, c₂, c₃) = settings-IsComplete env _ _ tls sasl in
      (
        lookup-update "security.protocol" d overrides p ∙ c₁,
        passed_on "sasl.username" (lookup "KAFKA_SASL_USER" env) has_user
            (lookup-update "sasl.username" d overrides u ∙ c₂),
        passed_on "sasl.password" (lookup "KAFKA_SASL_PASSWORD" env) has_password
            (lookup-update "sasl.password" d overrides s ∙ c₃),
      )
