-- ===== src/Claims/Worker/Mutations.antt =====
-- services/claim-intelligence/worker.py: graph_mutations.
use Prim.Native.String.{String, ◌++◌}
use signalchord.Prelude.{List, [], ◌∷◌, Result, ok, ◌>>=◌}
use signalchord.Kafka.World.{Exn}
use signalchord.Graph.Json.{Json, text, object, other, Fields}
use signalchord.Events.Values.{Runtime, item, get_item, dict, merge}
use signalchord.Events.Envelope.{Keyed}

module _ {A V : Type 0} (rt : Runtime A V) where
  open rt use {null, str_of, now}

  -- `payload.get(key)`
  abbrev pub get_or_null : String → Json A → Result Exn (Json A)
  get_or_null key payload = get_item key (other null) payload

  abbrev pub common_of : Json A → Json A → List (String × Json A)
  common_of tenant_id observed_at =
      ("tenant_id", tenant_id)
      ∷ ("observed_at", observed_at)
      ∷ ("created_at", text now)
      ∷ ("updated_at", text now)
      ∷ []

  -- `f"..."` of ids
  abbrev pub article_of : Json A → String
  article_of document_id = "article:" ++ str_of document_id

  abbrev pub article_claim_id : Json A → Json A → Json A
  article_claim_id document_id claim_id =
      text ("article-claim:" ++ (article_of document_id ++ (":" ++ str_of claim_id)))

  abbrev pub evidence_claim_id : Json A → Json A → Json A
  evidence_claim_id evidence_id claim_id =
      text ("evidence-claim:" ++ (str_of evidence_id ++ (":" ++ str_of claim_id)))

  unfoldable pub upsert_claim : Json A → Fields A → Json A → String → String → Result Exn (Keyed A)
  upsert_claim claim_id common payload cluster_id normalized = do
    proposition ← item "proposition" payload
    confidence ← item "confidence" payload
    extraction_model ← get_or_null "extraction_model" payload
    extraction_version ← get_or_null "extraction_version" payload
    ok (
      claim_id,
      dict (
          ("mutation_type", text "upsert_claim")
          ∷ ("stable_id", claim_id)
          ∷ (
            "properties",
            object (
                merge common (
                  ("proposition", proposition)
                  ∷ ("normalized_proposition", text normalized)
                  ∷ ("cluster_id", text cluster_id)
                  ∷ ("confidence", confidence)
                  ∷ ("status", text "candidate")
                  ∷ ("extraction_model", extraction_model)
                  ∷ ("extraction_version", extraction_version)
                  ∷ [])),
          )
          ∷ []),
    )

  unfoldable pub upsert_evidence :
      Json A → Fields A → Json A → Json A → Json A → Result Exn (Keyed A)
  upsert_evidence evidence_id common document_id evidence payload = do
    start_offset ← item "start_offset" evidence
    end_offset ← item "end_offset" evidence
    span_hash ← item "span_hash" evidence
    confidence ← item "confidence" payload
    ok (
      evidence_id,
      dict (
          ("mutation_type", text "upsert_evidence")
          ∷ ("stable_id", evidence_id)
          ∷ (
            "properties",
            object (
                merge common (
                  ("document_id", document_id)
                  ∷ ("start_offset", start_offset)
                  ∷ ("end_offset", end_offset)
                  ∷ ("span_hash", span_hash)
                  ∷ ("kind", text "model_extraction")
                  ∷ ("confidence", confidence)
                  ∷ [])),
          )
          ∷ []),
    )

  -- a link with a confidence as its only property
  abbrev pub link_of : String → Json A → Json A → Json A → Fields A → Json A → Keyed A
  link_of mutation_type stable_id from_id to_id common confidence = (
    stable_id,
    dict (
        ("mutation_type", text mutation_type)
        ∷ ("stable_id", stable_id)
        ∷ ("from_id", from_id)
        ∷ ("to_id", to_id)
        ∷ ("properties", object (merge common (("confidence", confidence) ∷ [])))
        ∷ []),
  )

  abbrev pub links_of : Json A → Json A → Json A → Fields A → Json A → List (Keyed A)
  links_of claim_id document_id evidence_id common confidence =
      link_of "link_article_claim" (article_claim_id document_id claim_id)
        (text (article_of document_id)) claim_id common confidence
      ∷ link_of "link_evidence_claim" (evidence_claim_id evidence_id claim_id) evidence_id claim_id
          common confidence
      ∷ []

  -- the list, once the identifiers and the common properties are there
  unfoldable pub mutations_of :
      Json A → Json A → Json A → Fields A → Json A → String → String → Result Exn (List (Keyed A))
  unfolding upsert_claim upsert_evidence
  mutations_of claim_id document_id evidence common payload cluster_id normalized = do
    claim ← upsert_claim claim_id common payload cluster_id normalized
    evidence_id ← item "evidence_id" evidence
    found ← upsert_evidence evidence_id common document_id evidence payload
    confidence ← item "confidence" payload
    ok (claim ∷ found ∷ links_of claim_id document_id evidence_id common confidence)

  unfoldable pub graph_mutations : Json A → Json A → String → String → Result Exn (List (Keyed A))
  unfolding mutations_of
  graph_mutations source payload cluster_id normalized = do
    claim_id ← item "claim_id" payload
    document_id ← item "document_id" payload
    evidence ← item "evidence" payload
    tenant_id ← item "tenant_id" source
    observed_at ← get_or_null "occurred_at" source
    mutations_of claim_id document_id evidence (dict (common_of tenant_id observed_at)) payload
        cluster_id normalized
