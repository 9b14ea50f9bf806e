-- ===== src/Config/Validate.antt =====
-- services/python_common/production_config.py: validate_production_config.
use signalchord.Prelude.{
  String, Bool, Option, none, some, List, [], ◌∷◌, lookup, Dict, ◌=ˢ◌, if◌then◌else◌, Result, ok,
  err, ◌>>=◌,
}
use signalchord.Config.Env.{Env, get_or_empty, TextLibrary}
use signalchord.Config.Check.{
  Checked, check_kafka, check_minio, check_opensearch, check_neo4j, check_redis,
  check_control_plane, check_internal_token,
}

-- RuntimeError, whose text joins the requirements and what their checks say, or KeyError
pub data ConfigError : Type 0 where
  insecure : List (String × String) → ConfigError
  unknown_requirement : String → ConfigError

module _ (py : TextLibrary) where
  unfoldable pub checks : Dict (Env → Checked)
  unfolding check_kafka check_minio check_opensearch check_neo4j check_redis check_control_plane
      check_internal_token
  checks =
      ("kafka", check_kafka py)
      ∷ ("minio", check_minio py)
      ∷ ("opensearch", check_opensearch py)
      ∷ ("neo4j", check_neo4j py)
      ∷ ("redis", check_redis py)
      ∷ ("control_plane", check_control_plane py)
      ∷ ("internal_token", check_internal_token py)
      ∷ []

  -- the `except ValueError` in the loop
  abbrev pub add_error : String → Checked → List (String × String) → List (String × String)
  add_error requirement (ok _) errors = errors
  add_error requirement (err text) errors = (requirement, text) ∷ errors

  abbrev pub run_check :
      Env
      → String
      → Option (Env → Checked)
      → Result ConfigError (List (String × String))
      → Result ConfigError (List (String × String))
  run_check env requirement none rest = err (unknown_requirement requirement)
  run_check env requirement (some check) (ok errors) = ok (add_error requirement (check env) errors)
  run_check env requirement (some check) (err e) = err e

  unfoldable pub collect_errors : Env → List String → Result ConfigError (List (String × String))
  unfolding checks
  collect_errors env [] = ok []
  collect_errors env (requirement ∷ requirements) =
      run_check env requirement (lookup requirement checks) (collect_errors env requirements)

  -- `if errors: raise RuntimeError(...)`
  abbrev pub raise_errors : List (String × String) → Result ConfigError (Unit {0})
  raise_errors [] = ok tt
  raise_errors (e ∷ errors) = err (insecure (e ∷ errors))

  -- `env or os.environ`
  abbrev pub chosen : Option Env → Env → Env
  chosen none environ = environ
  chosen (some []) environ = environ
  chosen (some (v ∷ env)) environ = v ∷ env

  abbrev pub is_production : Env → Bool
  is_production env = py.lower (get_or_empty env "SIGNALCHORD_ENV") =ˢ "production"

  unfoldable pub validate_production_config :
      List String → Option Env → Env → Result ConfigError (Unit {0})
  unfolding collect_errors
  validate_production_config requirements env environ =
      if is_production (chosen env environ)
      then (collect_errors (chosen env environ) requirements >>= raise_errors)
      else ok tt
