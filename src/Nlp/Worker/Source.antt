-- ===== src/Nlp/Worker/Source.antt =====
-- services/nlp-pipeline/worker.py: envelope and load_text.
use Prim.Native.String.{String, ◌++◌}
use package.text.Mathlib.Text.{starts_with}
use signalchord.Prelude.{
  ℕ, Bool, [], ◌∷◌, Result, ok, err, ◌+◌, ltb, length, ◌=ˢ◌, if◌then◌else◌, ◌>>=◌,
}
use signalchord.Kafka.World.{Exn, Bytes}
use signalchord.Graph.Json.{Json, text, object, other, Fields, nil, field}
use signalchord.Events.Values.{Runtime, dict, get_item, value_error}

-- What the worker uses besides: the truth value of other values and whether one is None, floats, the
-- embedding, UTF-8, and the object storage, as the answer to the request for the object of a URI,
-- of which at most so many bytes are read.
pub record Platform (A : Type 0) : Type 0 where
  pub truthy : A → Bool
  pub is_none : A → Bool
  pub hundredths : ℕ → A
  pub entity_relevance : ℕ → A
  pub hash_embedding : String → A
  pub encode_utf8 : String → Bytes
  pub decode_utf8 : Bytes → Result Exn String
  pub read_object : String → ℕ → Result Exn Bytes

abbrev pub max_text_bytes : ℕ
max_text_bytes = 5000000

module _ {A V : Type 0} (rt : Runtime A V) (pf : Platform A) where
  open rt use {null, number, str_of, now, fresh}
  open pf use {truthy, encode_utf8, decode_utf8, read_object}

  -- `value or default`
  abbrev pub or_else : Json A → Json A → Json A
  or_else (text s) default = if s =ˢ "" then default else text s
  or_else (object nil) default = default
  or_else (object (field k v d)) default = object (field k v d)
  or_else (other a) default = if truthy a then other a else default

  unfoldable pub envelope :
      String → Json A → Json A → Json A → Json A → Fields A → String → Json A → Fields A
  envelope event_type tenant_id correlation_id causation_id key payload stage occurred_at = dict (
      ("event_id", text fresh)
      ∷ ("event_type", text event_type)
      ∷ ("schema_version", other (number 1))
      ∷ ("tenant_id", tenant_id)
      ∷ ("occurred_at", or_else occurred_at (text now))
      ∷ ("ingested_at", text now)
      ∷ ("correlation_id", correlation_id)
      ∷ ("causation_id", causation_id)
      ∷ ("origin", text "nlp-pipeline")
      ∷ ("processing_stage", text stage)
      ∷ (
        "idempotency_key",
        text (event_type ++ (":" ++ (str_of key ++ ":signalchord-rules:1.0.0"))),
      )
      ∷ ("payload", object payload)
      ∷ [])

  abbrev pub inline_text : String → Result Exn String
  inline_text inline =
      if ltb max_text_bytes (length (encode_utf8 inline))
      then err (value_error "inline text exceeds limit")
      else ok inline

  -- the object, of which one byte more than the limit is read
  abbrev pub stored_text : String → Result Exn String
  stored_text uri = do
    body ← read_object uri (max_text_bytes + 1)
    if ltb max_text_bytes (length body)
        then err (value_error "clean text exceeds limit")
        else decode_utf8 body

  abbrev pub missing_uri : Exn
  missing_uri = value_error "missing clean text object URI"

  abbrev pub text_at : Json A → Result Exn String
  text_at (text uri) = if starts_with uri "s3://" then stored_text uri else err missing_uri
  text_at (object d) = err missing_uri
  text_at (other a) = err missing_uri

  -- what `payload["text"]` holds decides
  abbrev pub text_from : Json A → Json A → Result Exn String
  text_from payload (text inline) = inline_text inline
  text_from payload (object d) = do
    uri ← get_item "clean_text_object_uri" (other null) payload
    text_at uri
  text_from payload (other a) = do
    uri ← get_item "clean_text_object_uri" (other null) payload
    text_at uri

  unfoldable pub load_text : Json A → Result Exn String
  load_text payload = do inline ← get_item "text" (other null) payload; text_from payload inline
