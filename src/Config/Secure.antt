-- ===== src/Config/Secure.antt =====
-- What services/python_common/production_config.py demands of an environment, said without the
-- order of the checks and their errors.
use Prim.Native.String.{String, count}
use text.Mathlib.Text.{starts_with}
use signalchord.Config.Validate.{checks}
use signalchord.Prelude.{
  ℕ, ◌≡◌, refl, ◌∙◌, Bool, true, false, not, ◌&&◌, ◌||◌, Option, none, some, List, [], ◌∷◌, lookup,
  ◌=ˢ◌, contains, if◌then◌else◌, Result, ok, err, ◌>>=◌, ◌>>◌, raise_if, leb, ap, ltb, arith,
}
use signalchord.Config.Env.{
  Env, get_or_empty, is_missing, ParsedUrl, TextLibrary, truthy, is_local_url_or_host,
}
use signalchord.Config.Check.{
  Checked, is_unmanaged, any_of, raise_if_local, require_scheme, is_empty, brokers_of,
  local_internal_token, dev_minio_access_key, dev_minio_secret_key, dev_neo4j_password, check_kafka,
  check_minio, check_opensearch, check_neo4j, check_redis, check_control_plane,
  check_internal_token,
}

abbrev pub passes : Checked → Bool
passes (ok _) = true
passes (err text) = false

passes-raise_if : (b : Bool) (text : String) → passes (raise_if b text) ≡ not b
passes-raise_if true text = refl
passes-raise_if false text = refl

passes-guard :
    (b : Bool) (text : String) (k : Checked) → passes (raise_if b text >> k) ≡ not b && passes k
passes-guard true text k = refl
passes-guard false text k = refl

-- that a URL was found not to be local, and that it has one of the schemes: neither is so of a URL
-- that urlparse does not take
abbrev pub is_known_remote : Result String Bool → Bool
is_known_remote (ok b) = not b
is_known_remote (err e) = false

abbrev pub is_scheme_in : List String → Result String ParsedUrl → Bool
is_scheme_in schemes (ok parsed) = contains schemes parsed.scheme
is_scheme_in schemes (err e) = false

passes-local :
    (r : Result String Bool) (text : String) → passes (raise_if_local r text) ≡ is_known_remote r
passes-local (ok b) text = passes-raise_if b text
passes-local (err e) text = refl

passes-local_guard :
    (r : Result String Bool) (text : String) (k : Checked)
    → passes (raise_if_local r text >> k) ≡ is_known_remote r && passes k
passes-local_guard (ok b) text k = passes-guard b text k
passes-local_guard (err e) text k = refl

not-not : (b : Bool) → not (not b) ≡ b
not-not true = refl
not-not false = refl

passes-scheme_guard :
    (schemes : List String) (r : Result String ParsedUrl) (text : String) (k : Checked)
    → passes (require_scheme schemes r text >> k) ≡ is_scheme_in schemes r && passes k
passes-scheme_guard schemes (ok parsed) text k =
    passes-guard (not (contains schemes parsed.scheme)) text k
    ∙ ap (λ b. b && passes k) (not-not (contains schemes parsed.scheme))
passes-scheme_guard schemes (err e) text k = refl

ruleset guards =
    (passes-raise_if, passes-guard, passes-local, passes-local_guard, passes-scheme_guard, not-not)

-- A secret is managed unless it is set to the empty text or to the one of development: an unset
-- secret counts as managed.
abbrev pub is_managed : Option String → String → Bool
is_managed none dev = true
is_managed (some value) dev = not (value =ˢ "") && not (value =ˢ dev)

not-is_unmanaged : (o : Option String) (dev : String) → not (is_unmanaged o dev) ≡ is_managed o dev
not-is_unmanaged none dev = refl
not-is_unmanaged (some value) dev = ground arith

module _ (py : TextLibrary) where
  abbrev pub is_remote : Env → String → Bool
  is_remote env key = is_known_remote (is_local_url_or_host py (get_or_empty env key))

  abbrev pub is_on : Env → String → Bool
  is_on env key = truthy py (lookup key env)

  abbrev pub has_scheme_in : Env → String → List String → Bool
  has_scheme_in env key schemes = is_scheme_in schemes (py.urlparse (get_or_empty env key))

  -- every one of the hosts is found not to be local
  abbrev pub all_remote : List String → Bool
  all_remote [] = true
  all_remote (x ∷ xs) = is_known_remote (is_local_url_or_host py x) && all_remote xs

  known_remote-first :
      (r s : Result String Bool)
      → is_known_remote (r >>= (λ b. if b then ok true else s))
        ≡ is_known_remote r && is_known_remote s
  known_remote-first (ok true) s = refl
  known_remote-first (ok false) s = refl
  known_remote-first (err e) s = refl

  known_remote-any_of :
      (xs : List String) → is_known_remote (any_of (is_local_url_or_host py) xs) ≡ all_remote xs
  known_remote-any_of [] = refl
  known_remote-any_of (x ∷ xs) =
      known_remote-first (is_local_url_or_host py x) (any_of (is_local_url_or_host py) xs)
      ∙ ap (λ b. is_known_remote (is_local_url_or_host py x) && b) (known_remote-any_of xs)

  abbrev pub is_kafka_secure : Env → Bool
  is_kafka_secure env =
      not (is_empty (brokers_of py env))
      && (all_remote (brokers_of py env)
          && (is_on env "KAFKA_TLS_ENABLED"
              && (is_on env "KAFKA_SASL_ENABLED"
                  && not (
                      is_missing (lookup "KAFKA_SASL_USER" env)
                      || is_missing (lookup "KAFKA_SASL_PASSWORD" env)))))

  pub passes-check_kafka : (env : Env) → passes (check_kafka py env) ≡ is_kafka_secure env
  unfolding check_kafka
  passes-check_kafka env = simp (guards, known_remote-any_of)

  abbrev pub is_minio_secure : Env → Bool
  is_minio_secure env =
      not (get_or_empty env "MINIO_ENDPOINT" =ˢ "")
      && (is_remote env "MINIO_ENDPOINT"
          && (is_on env "MINIO_SECURE"
              && (is_managed (lookup "MINIO_ACCESS_KEY" env) dev_minio_access_key
                  && is_managed (lookup "MINIO_SECRET_KEY" env) dev_minio_secret_key)))

  passes-check_minio : (env : Env) → passes (check_minio py env) ≡ is_minio_secure env
  unfolding check_minio
  passes-check_minio env = simp (guards, not-is_unmanaged)

  abbrev pub is_opensearch_secure : Env → Bool
  is_opensearch_secure env =
      has_scheme_in env "OPENSEARCH_URL" ("https" ∷ [])
      && (is_remote env "OPENSEARCH_URL" && is_on env "OPENSEARCH_VERIFY_CERTS")

  passes-check_opensearch :
      (env : Env) → passes (check_opensearch py env) ≡ is_opensearch_secure env
  unfolding check_opensearch
  passes-check_opensearch env = simp guards

  abbrev pub is_neo4j_secure : Env → Bool
  is_neo4j_secure env =
      has_scheme_in env "NEO4J_URI" ("neo4j+s" ∷ "bolt+s" ∷ [])
      && (is_remote env "NEO4J_URI" && is_managed (lookup "NEO4J_PASSWORD" env) dev_neo4j_password)

  pub passes-check_neo4j : (env : Env) → passes (check_neo4j py env) ≡ is_neo4j_secure env
  unfolding check_neo4j
  passes-check_neo4j env = simp (guards, not-is_unmanaged)

  abbrev pub is_redis_secure : Env → Bool
  is_redis_secure env = starts_with (get_or_empty env "REDIS_URL") "rediss://"

  passes-check_redis : (env : Env) → passes (check_redis py env) ≡ is_redis_secure env
  unfolding check_redis
  passes-check_redis env = simp guards

  abbrev pub is_control_plane_secure : Env → Bool
  is_control_plane_secure env =
      has_scheme_in env "CONTROL_PLANE_URL" ("https" ∷ []) && is_remote env "CONTROL_PLANE_URL"

  passes-check_control_plane :
      (env : Env) → passes (check_control_plane py env) ≡ is_control_plane_secure env
  unfolding check_control_plane
  passes-check_control_plane env = simp guards

  abbrev pub is_internal_token_secure : Env → Bool
  is_internal_token_secure env =
      let token = get_or_empty env "CONTROL_PLANE_INTERNAL_TOKEN" in
      not (token =ˢ local_internal_token) && leb 32 (count token)

  not-or-ltb : (b : Bool) (m n : ℕ) → not (b || ltb m n) ≡ not b && leb n m
  not-or-ltb b m n = ground arith

  passes-check_internal_token :
      (env : Env) → passes (check_internal_token py env) ≡ is_internal_token_secure env
  unfolding check_internal_token
  passes-check_internal_token env =
      passes-raise_if _ _
      ∙ not-or-ltb _ (count (get_or_empty env "CONTROL_PLANE_INTERNAL_TOKEN")) 32

  -- what the requirement of a name demands; a name that is no requirement is never met
  unfoldable pub is_secure : String → Env → Bool
  is_secure requirement env =
      if "kafka" =ˢ requirement
      then is_kafka_secure env
      else if "minio" =ˢ requirement
      then is_minio_secure env
      else if "opensearch" =ˢ requirement
      then is_opensearch_secure env
      else if "neo4j" =ˢ requirement
      then is_neo4j_secure env
      else if "redis" =ˢ requirement
      then is_redis_secure env
      else if "control_plane" =ˢ requirement
      then is_control_plane_secure env
      else if "internal_token" =ˢ requirement
      then is_internal_token_secure env
      else false

  abbrev pub answer : Env → Option (Env → Checked) → Bool
  answer env none = false
  answer env (some check) = passes (check env)

  answer-if :
      (env : Env) (b : Bool) (x y : Option (Env → Checked))
      → answer env (if b then x else y) ≡ (if b then answer env x else answer env y)
  answer-if env true x y = refl
  answer-if env false x y = refl

  ruleset checked = (
    passes-check_kafka, passes-check_minio, passes-check_opensearch, passes-check_neo4j,
    passes-check_redis, passes-check_control_plane, passes-check_internal_token,
  )

  pub answer-checks :
      (requirement : String) (env : Env)
      → answer env (lookup requirement (checks py)) ≡ is_secure requirement env
  unfolding checks is_secure
  answer-checks requirement env = simp (answer-if, checked)
