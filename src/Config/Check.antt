-- ===== src/Config/Check.antt =====
-- services/python_common/production_config.py: the checks, one for each requirement.
use Prim.Native.String.{String, count}
use text.Mathlib.Text.{starts_with}
use signalchord.Prelude.{
  Bool, true, false, not, ◌||◌, Option, none, some, List, [], ◌∷◌, lookup, ◌=ˢ◌, contains,
  if◌then◌else◌, Result, ok, err, ◌>>=◌, ◌>>◌, raise_if, ltb,
}
use signalchord.Config.Env.{
  Env, get_or_empty, is_missing, ParsedUrl, TextLibrary, split, truthy, is_local_url_or_host,
}

abbrev pub local_internal_token : String
local_internal_token = "signalchord-local-internal"

abbrev pub dev_minio_access_key : String
dev_minio_access_key = "signalchord"

abbrev pub dev_minio_secret_key : String
dev_minio_secret_key = "signalchord-dev-secret"

abbrev pub dev_neo4j_password : String
dev_neo4j_password = "signalchord-dev"

-- `env.get(key) in {"", dev}`: None is in no set of texts
abbrev pub is_unmanaged : Option String → String → Bool
is_unmanaged none dev = false
is_unmanaged (some value) dev = (value =ˢ "") || (value =ˢ dev)

abbrev pub is_empty : List String → Bool
is_empty [] = true
is_empty (x ∷ xs) = false

-- A check raises ValueError, whose text is the error.
abbrev pub Checked : Type 0
Checked = Result String (Unit {0})

-- `if test(...): raise ValueError(text)`, where the test may raise itself
abbrev pub raise_if_local : Result String Bool → String → Checked
raise_if_local (err e) text = err e
raise_if_local (ok b) text = raise_if b text

-- `if parsed.scheme not in schemes: raise ValueError(text)`, where `urlparse` may have raised
abbrev pub require_scheme : List String → Result String ParsedUrl → String → Checked
require_scheme schemes (err e) text = err e
require_scheme schemes (ok parsed) text = raise_if (not (contains schemes parsed.scheme)) text

-- `any(test(x) for x in xs)`, which stops at the first that holds or raises
abbrev pub any_of : (String → Result String Bool) → List String → Result String Bool
any_of test [] = ok false
any_of test (x ∷ xs) = let rest = any_of test xs in test x >>= λ b. if b then ok true else rest

module _ (py : TextLibrary) where
  -- `[broker.strip() for broker in ... if broker.strip()]`
  abbrev pub strip_all : List String → List String
  strip_all [] = []
  strip_all (x ∷ xs) = if py.strip x =ˢ "" then strip_all xs else py.strip x ∷ strip_all xs

  abbrev pub brokers_of : Env → List String
  brokers_of env = strip_all (split "," (get_or_empty env "KAFKA_BROKERS"))

  unfoldable pub check_kafka : Env → Checked
  unfolding truthy is_local_url_or_host
  check_kafka env = do
    raise_if (is_empty (brokers_of env)) "KAFKA_BROKERS is required"
    raise_if_local (any_of (is_local_url_or_host py) (brokers_of env))
        "KAFKA_BROKERS cannot contain localhost or loopback addresses"
    raise_if (not (truthy py (lookup "KAFKA_TLS_ENABLED" env))) "KAFKA_TLS_ENABLED must be true"
    raise_if (not (truthy py (lookup "KAFKA_SASL_ENABLED" env))) "KAFKA_SASL_ENABLED must be true"
    raise_if
        (is_missing (lookup "KAFKA_SASL_USER" env) || is_missing (lookup "KAFKA_SASL_PASSWORD" env))
        "KAFKA_SASL_USER and KAFKA_SASL_PASSWORD are required"

  unfoldable pub check_minio : Env → Checked
  unfolding truthy is_local_url_or_host
  check_minio env = do
    raise_if (get_or_empty env "MINIO_ENDPOINT" =ˢ "") "MINIO_ENDPOINT is required"
    raise_if_local (is_local_url_or_host py (get_or_empty env "MINIO_ENDPOINT"))
        "MINIO_ENDPOINT cannot point at localhost"
    raise_if (not (truthy py (lookup "MINIO_SECURE" env))) "MINIO_SECURE must be true"
    raise_if (is_unmanaged (lookup "MINIO_ACCESS_KEY" env) dev_minio_access_key)
        "MINIO_ACCESS_KEY must be a managed secret"
    raise_if (is_unmanaged (lookup "MINIO_SECRET_KEY" env) dev_minio_secret_key)
        "MINIO_SECRET_KEY must be a managed secret"

  unfoldable pub check_opensearch : Env → Checked
  unfolding truthy is_local_url_or_host
  check_opensearch env = do
    require_scheme ("https" ∷ []) (py.urlparse (get_or_empty env "OPENSEARCH_URL"))
        "OPENSEARCH_URL must use https://"
    raise_if_local (is_local_url_or_host py (get_or_empty env "OPENSEARCH_URL"))
        "OPENSEARCH_URL cannot point at localhost"
    raise_if (not (truthy py (lookup "OPENSEARCH_VERIFY_CERTS" env)))
        "OPENSEARCH_VERIFY_CERTS must be true"

  unfoldable pub check_neo4j : Env → Checked
  unfolding is_local_url_or_host
  check_neo4j env = do
    require_scheme ("neo4j+s" ∷ "bolt+s" ∷ []) (py.urlparse (get_or_empty env "NEO4J_URI"))
        "NEO4J_URI must use neo4j+s:// or bolt+s://"
    raise_if_local (is_local_url_or_host py (get_or_empty env "NEO4J_URI"))
        "NEO4J_URI cannot point at localhost"
    raise_if (is_unmanaged (lookup "NEO4J_PASSWORD" env) dev_neo4j_password)
        "NEO4J_PASSWORD must be a managed secret"

  unfoldable pub check_redis : Env → Checked
  check_redis env =
      raise_if (not (starts_with (get_or_empty env "REDIS_URL") "rediss://"))
        "REDIS_URL must use rediss://"

  unfoldable pub check_control_plane : Env → Checked
  unfolding is_local_url_or_host
  check_control_plane env = do
    require_scheme ("https" ∷ []) (py.urlparse (get_or_empty env "CONTROL_PLANE_URL"))
        "CONTROL_PLANE_URL must use https://"
    raise_if_local (is_local_url_or_host py (get_or_empty env "CONTROL_PLANE_URL"))
        "CONTROL_PLANE_URL cannot point at localhost"

  unfoldable pub check_internal_token : Env → Checked
  check_internal_token env =
      raise_if
        ((get_or_empty env "CONTROL_PLANE_INTERNAL_TOKEN" =ˢ local_internal_token)
          || ltb (count (get_or_empty env "CONTROL_PLANE_INTERNAL_TOKEN")) 32)
        "CONTROL_PLANE_INTERNAL_TOKEN must be a managed secret"
