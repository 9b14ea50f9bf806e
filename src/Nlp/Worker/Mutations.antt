-- ===== src/Nlp/Worker/Mutations.antt =====
-- services/nlp-pipeline/worker.py: graph_base_mutations.
use Prim.Native.String.{String, ◌++◌}
use signalchord.Prelude.{List, [], ◌∷◌, Result, ok, ◌>>=◌}
use signalchord.Kafka.World.{Exn}
use signalchord.Graph.Json.{Json, text, object, other, Fields}
use signalchord.Events.Values.{Runtime, item, get_item, dict, merge}
use signalchord.Events.Envelope.{Keyed}
use signalchord.Nlp.Extract.{Extraction}
use signalchord.Nlp.Worker.Source.{Platform}

module _ {A V : Type 0} (rt : Runtime A V) (pf : Platform A) where
  open rt use {null, str_of, now, strings}
  open pf use {hundredths}

  -- `payload.get(key)`
  abbrev pub get_or_null : String → Json A → Result Exn (Json A)
  get_or_null key payload = get_item key (other null) payload

  abbrev pub common_of : Json A → Json A → Extraction A → Fields A
  common_of tenant_id observed_at result = dict (
      ("tenant_id", tenant_id)
      ∷ ("observed_at", observed_at)
      ∷ ("created_at", text now)
      ∷ ("updated_at", text now)
      ∷ ("extraction_model", text result.extraction_model)
      ∷ ("extraction_version", text result.extraction_version)
      ∷ [])

  abbrev pub node : String → Json A → Fields A → List (String × Json A) → Keyed A
  node mutation_type stable_id common properties = (
    stable_id,
    dict (
        ("mutation_type", text mutation_type)
        ∷ ("stable_id", stable_id)
        ∷ ("properties", object (merge common properties))
        ∷ []),
  )

  abbrev pub link : String → String → Json A → Json A → Fields A → Keyed A
  link mutation_type stable_id from_id to_id common = (
    text stable_id,
    dict (
        ("mutation_type", text mutation_type)
        ∷ ("stable_id", text stable_id)
        ∷ ("from_id", from_id)
        ∷ ("to_id", to_id)
        ∷ ("properties", object common)
        ∷ []),
  )

  abbrev pub article_of : Json A → String
  article_of document_id = "article:" ++ str_of document_id

  -- what `payload.get` answers to
  pub record Details : Type 0 where
    pub canonical_url : Json A
    pub title : Json A
    pub clean_text_object_uri : Json A
    pub published_at : Json A
    pub source_id : Json A

  abbrev pub details : Json A → Result Exn Details
  details payload = do
    canonical_url ← get_or_null "canonical_url" payload
    title ← get_or_null "title" payload
    clean_text_object_uri ← get_or_null "clean_text_object_uri" payload
    published_at ← get_or_null "published_at" payload
    source_id ← get_item "source_id" (text "source:unknown") payload
    ok (record {
      canonical_url = canonical_url;
      title = title;
      clean_text_object_uri = clean_text_object_uri;
      published_at = published_at;
      source_id = source_id;
    })

  abbrev pub document_properties : Details → List (String × Json A)
  document_properties d =
      ("status", text "model_verified")
      ∷ ("confidence", other (hundredths 100))
      ∷ ("canonical_url", d.canonical_url)
      ∷ ("title", d.title)
      ∷ ("clean_text_object_uri", d.clean_text_object_uri)
      ∷ []

  abbrev pub article_properties : Json A → Extraction A → Details → List (String × Json A)
  article_properties document_id result d =
      ("document_id", document_id)
      ∷ ("title", d.title)
      ∷ ("canonical_url", d.canonical_url)
      ∷ ("published_at", d.published_at)
      ∷ ("language", text result.language)
      ∷ ("topics", other (strings result.topics))
      ∷ ("embedding", other result.embedding)
      ∷ ("status", text "model_verified")
      ∷ []

  abbrev pub source_properties : List (String × Json A)
  source_properties = ("status", text "active") ∷ []

  abbrev pub mutations_of : Json A → Fields A → Extraction A → Details → List (Keyed A)
  mutations_of document_id common result d =
      node "upsert_document" document_id common (document_properties d)
      ∷ node "upsert_article" (text (article_of document_id)) common
          (article_properties document_id result d)
      ∷ node "upsert_source" d.source_id common source_properties
      ∷ link "link_published"
          ("published:" ++ (article_of document_id ++ (":" ++ str_of d.source_id)))
          (text (article_of document_id)) d.source_id common
      ∷ link "link_article_document"
          ("article-document:" ++ (article_of document_id ++ (":" ++ str_of document_id)))
          (text (article_of document_id)) document_id common
      ∷ []

  unfoldable pub graph_base_mutations : Json A → Json A → Extraction A → Result Exn (List (Keyed A))
  graph_base_mutations source payload result = do
    document_id ← item "document_id" payload
    tenant_id ← item "tenant_id" source
    observed_at ← get_or_null "occurred_at" source
    d ← details payload
    ok (mutations_of document_id (common_of tenant_id observed_at result) result d)
