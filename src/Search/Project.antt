-- ===== src/Search/Project.antt =====
-- services/search-projector/worker.py: load_text and project.
use Prim.Native.String.{String, ◌++◌}
use signalchord.Prelude.{
  ℕ, ◌+◌, Option, none, some, List, [], ◌∷◌, Result, ok, err, ltb, length, if◌then◌else◌, ◌>>=◌,
}
use signalchord.Kafka.World.{Exn, Bytes}
use signalchord.Graph.Json.{Json, text, other, Fields}
use signalchord.Events.Values.{Runtime, item, get_item, dict, value_error}
use signalchord.Entities.Worker.Process.{is_text}

-- The object storage, as the answer to the request for the object of a URI, of which at most so many
-- bytes are read, and UTF-8.
pub record Storage (A : Type 0) : Type 0 where
  pub read_object : Json A → ℕ → Result Exn Bytes
  pub decode_utf8 : Bytes → Result Exn String

-- A request to the search index: `client.index(index=, id=, body=, refresh=False)` or
-- `client.delete_by_query(index=, body=, refresh=True, conflicts="proceed")`, whose body is
-- `{"query": {"bool": {"filter": [...]}}}`, here the list of the filter's terms, each
-- `{"term": {key: value}}`: what is deleted is the entries that meet all of them.
pub data Request (A : Type 0) : Type 0 where
  put_entry : String → String → Fields A → Request A
  delete_by_query : String → List (String × Json A) → Request A

abbrev pub max_text_bytes : ℕ
max_text_bytes = 5000000

abbrev pub articles : String
articles = "signalchord-articles"

abbrev pub entities : String
entities = "signalchord-entities"

abbrev pub claims : String
claims = "signalchord-claims"

module _ {A V : Type 0} (rt : Runtime A V) (storage : Storage A) where
  open rt use {null, str_of}
  open storage use {read_object, decode_utf8}

  unfoldable pub load_text : Json A → Result Exn String
  load_text uri = do
    body ← read_object uri (max_text_bytes + 1)
    if ltb max_text_bytes (length body)
        then err (value_error "document exceeds search projection limit")
        else decode_utf8 body

  abbrev pub get_or_null : String → Json A → Result Exn (Json A)
  get_or_null key payload = get_item key (other null) payload

  -- `f"{tenant_id}:{id}"`
  abbrev pub entry_id : Json A → Json A → String
  entry_id tenant_id id = str_of tenant_id ++ (":" ++ str_of id)

  unfoldable pub article_request : Json A → Json A → Json A → Result Exn (Request A)
  unfolding load_text
  article_request event payload tenant_id = do
    uri ← item "clean_text_object_uri" payload
    content ← load_text uri
    document_id ← item "document_id" payload
    source_id ← get_or_null "source_id" payload
    title ← get_or_null "title" payload
    canonical_url ← get_or_null "canonical_url" payload
    published_at ← get_or_null "published_at" payload
    observed_at ← get_or_null "occurred_at" event
    ok (
        put_entry articles (entry_id tenant_id document_id) (
          dict (
            ("tenant_id", tenant_id)
            ∷ ("document_id", document_id)
            ∷ ("source_id", source_id)
            ∷ ("title", title)
            ∷ ("canonical_url", canonical_url)
            ∷ ("content", text content)
            ∷ ("published_at", published_at)
            ∷ ("observed_at", observed_at)
            ∷ [])))

  -- the entries of a source of a tenant
  abbrev pub takedown_query : Json A → Json A → List (String × Json A)
  takedown_query tenant_id source_id = ("tenant_id", tenant_id) ∷ ("source_id", source_id) ∷ []

  unfoldable pub takedown_request : Json A → Json A → Result Exn (Request A)
  takedown_request payload tenant_id = do
    source_id ← item "source_id" payload
    ok (delete_by_query articles (takedown_query tenant_id source_id))

  unfoldable pub entity_request : Json A → Json A → Result Exn (Request A)
  entity_request payload tenant_id = do
    entity_id ← item "entity_id" payload
    display_name ← item "display_name" payload
    entity_type ← item "entity_type" payload
    confidence ← item "confidence" payload
    status ← item "status" payload
    ok (
        put_entry entities (entry_id tenant_id entity_id) (
          dict (
            ("tenant_id", tenant_id)
            ∷ ("stable_id", entity_id)
            ∷ ("display_name", display_name)
            ∷ ("entity_type", entity_type)
            ∷ ("confidence", confidence)
            ∷ ("status", status)
            ∷ [])))

  unfoldable pub claim_request : Json A → Json A → Result Exn (Request A)
  claim_request payload tenant_id = do
    claim_id ← item "claim_id" payload
    cluster_id ← item "cluster_id" payload
    proposition ← item "proposition" payload
    stance ← item "stance" payload
    confidence ← item "confidence" payload
    ok (
        put_entry claims (entry_id tenant_id claim_id) (
          dict (
            ("tenant_id", tenant_id)
            ∷ ("claim_id", claim_id)
            ∷ ("cluster_id", cluster_id)
            ∷ ("proposition", proposition)
            ∷ ("stance", stance)
            ∷ ("confidence", confidence)
            ∷ [])))

  abbrev pub some_request : Result Exn (Request A) → Result Exn (Option (Request A))
  some_request (ok r) = ok (some r)
  some_request (err e) = err e

  -- the request for an event of the type, or none for another type
  abbrev pub request_for : Json A → Json A → Json A → Json A → Result Exn (Option (Request A))
  request_for event payload event_type tenant_id =
      if is_text "document.normalized.v1" event_type
      then some_request (article_request event payload tenant_id)
      else if is_text "source.takedown.requested.v1" event_type
      then some_request (takedown_request payload tenant_id)
      else if is_text "entity.resolved.v1" event_type
      then some_request (entity_request payload tenant_id)
      else if is_text "claim.clustered.v1" event_type
      then some_request (claim_request payload tenant_id)
      else ok none

  unfoldable pub request_of : Json A → Result Exn (Option (Request A))
  unfolding article_request takedown_request entity_request claim_request
  request_of event = do
    payload ← item "payload" event
    event_type ← item "event_type" event
    tenant_id ← item "tenant_id" event
    request_for event payload event_type tenant_id
