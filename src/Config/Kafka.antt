-- ===== src/Config/Kafka.antt =====
-- services/python_common/production_config.py: kafka_config, the settings of a worker's consumer and
-- producer.
pub mod Secured
use Prim.Native.String.{String}
use signalchord.Prelude.{
  Bool, true, false, Option, none, some, List, [], ◌∷◌, Dict, lookup, insert, ◌=ˢ◌, if◌then◌else◌,
}
use signalchord.Config.Env.{Env, get_or_empty, TextLibrary, truthy}

-- a value that a setting has here
pub data Setting : Type 0 where
  word : String → Setting
  flag : Bool → Setting

-- `os.getenv(key, default)`
abbrev pub get_or : String → Option String → String
get_or default none = default
get_or default (some value) = value

-- `config.setdefault(key, value)`
abbrev pub set_default : String → Setting → Dict Setting → Dict Setting
set_default key value config = elim (lookup key config) [
  | none ↦ insert key value config
  | some old ↦ config
]

-- `config.update(overrides)`
abbrev pub update : Dict Setting → List (String × Setting) → Dict Setting
update config [] = config
update config ((key, value) ∷ overrides) = update (insert key value config) overrides

-- `if ca := ...: config["ssl.ca.pem"] = ca`
abbrev pub with_ca : Option String → Dict Setting → Dict Setting
with_ca none config = config
with_ca (some ca) config = if ca =ˢ "" then config else insert "ssl.ca.pem" (word ca) config

abbrev pub base : Env → Dict Setting
base env = ("bootstrap.servers", word (get_or "localhost:29092" (lookup "KAFKA_BROKERS" env))) ∷ []

abbrev pub protocol : Bool → String
protocol sasl = if sasl then "SASL_SSL" else "SSL"

-- with TLS or not
abbrev pub secured : Bool → Bool → Env → Dict Setting
secured tls sasl env =
    if tls
    then with_ca (lookup "KAFKA_TLS_CA_PEM" env)
        (insert "security.protocol" (word (protocol sasl)) (base env))
    else base env

abbrev pub authenticated : Env → Dict Setting → Dict Setting
authenticated env config =
    insert "sasl.mechanisms" (word (get_or "PLAIN" (lookup "KAFKA_SASL_MECHANISM" env))) (
      insert "sasl.password" (word (get_or "" (lookup "KAFKA_SASL_PASSWORD" env))) (
        insert "sasl.username" (word (get_or "" (lookup "KAFKA_SASL_USER" env)))
          (set_default "security.protocol" (word "SASL_PLAINTEXT") config)))

-- the settings for both flags, before the overrides
abbrev pub settings : Bool → Bool → Env → Dict Setting
settings tls sasl env =
    if sasl then authenticated env (secured tls sasl env) else secured tls sasl env

module _ (py : TextLibrary) where
  unfoldable pub kafka_config : Env → List (String × Setting) → Dict Setting
  unfolding truthy
  kafka_config env overrides =
      update
        (settings (truthy py (lookup "KAFKA_TLS_ENABLED" env))
          (truthy py (lookup "KAFKA_SASL_ENABLED" env)) env)
        overrides
