-- ===== src/Config/Tests.antt =====
-- Concrete environments for services/python_common/production_config.py, with text functions that
-- are right on texts without upper case, white space and user names.
use signalchord.Prelude.{
  ok, ◌≡◌, refl, String, true, false, Option, none, some, List, [], ◌∷◌, not, ◌||◌, lookup,
}
use signalchord.Config.Env.{Env, TextLibrary, truthy, split, is_local_url_or_host}
use signalchord.Config.Check.{check_neo4j, check_kafka}
use signalchord.Config.Kafka.{Setting, word, flag, kafka_config}
use signalchord.Config.Kafka.Secured.{IsPassedOn, kafka_config-IsPassedOn}
use signalchord.Config.Validate.{chosen, is_production, validate_production_config}
use signalchord.Config.Secure.{passes}
use signalchord.Config.Reports.{starts, is_all_secure, validate_production_config-is_all_secure}
use signalchord.Config.Unset.{unset, check_neo4j-unset}

abbrev host_part : List String → Option String
host_part [] = none
host_part (scheme ∷ []) = none
host_part (scheme ∷ empty ∷ []) = none
host_part (scheme ∷ empty ∷ authority ∷ rest) = some authority

abbrev head_part : List String → String
head_part [] = ""
head_part (s ∷ rest) = s

abbrev plain : TextLibrary
unfolding split
plain = record {
  strip = λ s. s;
  strip_brackets = λ s. s;
  lower = λ s. s;
  urlparse =
      λ s. ok (record { scheme = head_part (split ":" s); hostname = host_part (split "/" s) });
}

abbrev good : Env
good =
    ("SIGNALCHORD_ENV", "production")
    ∷ ("NEO4J_URI", "neo4j+s://graph.example")
    ∷ ("NEO4J_PASSWORD", "managed")
    ∷ []

passes-good : passes (check_neo4j plain good) ≡ true
unfolding check_neo4j is_local_url_or_host split
passes-good = refl

check_neo4j-unset_example : passes (check_neo4j plain (unset "NEO4J_PASSWORD" good)) ≡ true
check_neo4j-unset_example = check_neo4j-unset plain good passes-good

validate_production_config-is_all_secure_example :
    let used = chosen plain (some good) [] in
    starts (validate_production_config plain ("neo4j" ∷ "redis" ∷ []) (some good) [])
    ≡ not (is_production plain used) || is_all_secure plain used ("neo4j" ∷ "redis" ∷ [])
validate_production_config-is_all_secure_example =
    validate_production_config-is_all_secure plain ("neo4j" ∷ "redis" ∷ []) (some good) []

abbrev kafka : Env
kafka =
    ("KAFKA_BROKERS", "broker.example:9093")
    ∷ ("KAFKA_TLS_ENABLED", "true")
    ∷ ("KAFKA_SASL_ENABLED", "true")
    ∷ ("KAFKA_SASL_USER", "worker")
    ∷ ("KAFKA_SASL_PASSWORD", "managed")
    ∷ []

passes-kafka : passes (check_kafka plain kafka) ≡ true
unfolding check_kafka truthy is_local_url_or_host split
passes-kafka = refl

-- the overrides of services/search-projector/worker.py
abbrev overrides : List (String × Setting)
overrides =
    ("group.id", word "signalchord-search-projector-v1")
    ∷ ("enable.auto.commit", flag false)
    ∷ ("auto.offset.reset", word "earliest")
    ∷ []

kafka_config-IsPassedOn_example :
    (lookup "security.protocol" (kafka_config plain kafka overrides) ≡ some (word "SASL_SSL"))
    × IsPassedOn
        (kafka_config plain kafka overrides)
        "sasl.username"
        (lookup "KAFKA_SASL_USER" kafka)
    × IsPassedOn
        (kafka_config plain kafka overrides)
        "sasl.password"
        (lookup "KAFKA_SASL_PASSWORD" kafka)
kafka_config-IsPassedOn_example =
    kafka_config-IsPassedOn plain kafka overrides passes-kafka refl refl refl
