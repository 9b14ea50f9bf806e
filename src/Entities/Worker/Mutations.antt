-- ===== src/Entities/Worker/Mutations.antt =====
-- services/entity-resolution/worker.py: resolve_mention on JSON and graph_events.
use Prim.Native.String.{String, ◌++◌}
use signalchord.Prelude.{ℕ, Bool, Option, none, some, List, [], ◌∷◌, Result, ok, ◌>>=◌}
use signalchord.Kafka.World.{Exn}
use signalchord.Graph.Json.{Json, text, object, other, Fields}
use signalchord.Events.Values.{Runtime, item, dict, merge}
use signalchord.Events.Envelope.{Keyed}
use signalchord.Claims.Worker.Mutations.{get_or_null, common_of, article_of, link_of}
use signalchord.Entities.Resolve.{Resolved, Candidate, resolve_mention, default_aliases}

-- What resolve_mention needs besides: `" ".join(s.split())`, `float`, the floats that are written with
-- two digits and their order, and floats, flags and candidates as JSON values. `is_hashable` tells
-- what can be a key of a dict.
pub record Resolver (A F : Type 0) : Type 0 where
  pub join_split : String → String
  pub zero_float : F
  pub float_of : Json A → Result Exn F
  pub hundredths : ℕ → F
  pub float_le : F → F → Bool
  pub of_float : F → A
  pub of_bool : Bool → A
  pub of_candidates : List Candidate → A
  pub is_hashable : A → Bool

module _ {A V F : Type 0} (rt : Runtime A V) (rs : Resolver A F) where
  open rt use {null, str_of, now, casefold, hex_digest}

  -- `resolve_mention(payload, ALIASES)`
  unfoldable pub resolve_fields : Fields A → Result Exn (Resolved (Json A) F)
  unfolding resolve_mention
  resolve_fields d =
      resolve_mention casefold rs.join_split hex_digest rs.zero_float rs.hundredths rs.float_le
        rs.float_of d (some default_aliases)

  abbrev pub null_or : Option (Json A) → Json A
  null_or none = other null
  null_or (some v) = v

  -- the dict that resolve_mention returns
  abbrev pub resolved_entries : Resolved (Json A) F → List (String × Json A)
  resolved_entries r =
      ("mention_id", text r.mention_id)
      ∷ ("document_id", r.document_id)
      ∷ ("entity_id", text r.entity_id)
      ∷ ("entity_type", r.entity_type)
      ∷ ("display_name", text r.display_name)
      ∷ ("confidence", other (rs.of_float r.confidence))
      ∷ ("status", text r.status)
      ∷ ("requires_review", other (rs.of_bool r.requires_review))
      ∷ ("alternatives", other (rs.of_candidates r.alternatives))
      ∷ ("evidence", r.evidence)
      ∷ ("extraction_model", null_or r.extraction_model)
      ∷ ("extraction_version", null_or r.extraction_version)
      ∷ []

  -- common_properties
  unfoldable pub common_properties : Json A → Result Exn (Fields A)
  common_properties source = do
    tenant_id ← item "tenant_id" source
    observed_at ← get_or_null rt "occurred_at" source
    ok (dict (common_of rt tenant_id observed_at))

  abbrev pub upsert_entity : Resolved (Json A) F → Fields A → Keyed A
  upsert_entity r common = (
    text r.entity_id,
    dict (
        ("mutation_type", text "upsert_entity")
        ∷ ("stable_id", text r.entity_id)
        ∷ ("entity_type", r.entity_type)
        ∷ (
          "properties",
          object (
              merge common (
                ("display_name", text r.display_name)
                ∷ ("normalized_name", text (casefold r.display_name))
                ∷ ("confidence", other (rs.of_float r.confidence))
                ∷ ("status", text r.status)
                ∷ ("extraction_model", null_or r.extraction_model)
                ∷ ("extraction_version", null_or r.extraction_version)
                ∷ [])),
        )
        ∷ []),
  )

  unfoldable pub upsert_mention_evidence :
      Json A → Fields A → Resolved (Json A) F → Result Exn (Keyed A)
  upsert_mention_evidence evidence_id common r = do
    start_offset ← item "start_offset" r.evidence
    end_offset ← item "end_offset" r.evidence
    span_hash ← item "span_hash" r.evidence
    ok (
      evidence_id,
      dict (
          ("mutation_type", text "upsert_evidence")
          ∷ ("stable_id", evidence_id)
          ∷ (
            "properties",
            object (
                merge common (
                  ("document_id", r.document_id)
                  ∷ ("start_offset", start_offset)
                  ∷ ("end_offset", end_offset)
                  ∷ ("span_hash", span_hash)
                  ∷ ("kind", text "model_extraction")
                  ∷ ("confidence", other (rs.of_float r.confidence))
                  ∷ [])),
          )
          ∷ []),
    )

  abbrev pub link_mentions : Resolved (Json A) F → Json A → Fields A → Keyed A
  link_mentions r evidence_id common = (
    text (
        "mentions:"
        ++ (article_of rt r.document_id ++ (":" ++ (r.entity_id ++ (":" ++ r.mention_id))))),
    dict (
        ("mutation_type", text "link_mentions")
        ∷ ("stable_id", text ("mentions:" ++ r.mention_id))
        ∷ ("from_id", text (article_of rt r.document_id))
        ∷ ("to_id", text r.entity_id)
        ∷ (
          "properties",
          object (
              merge common (
                ("mention_id", text r.mention_id)
                ∷ ("confidence", other (rs.of_float r.confidence))
                ∷ ("status", text r.status)
                ∷ ("evidence_id", evidence_id)
                ∷ [])),
        )
        ∷ []),
  )

  abbrev pub evidence_entity_id : Json A → String → Json A
  evidence_entity_id evidence_id entity_id =
      text ("evidence-entity:" ++ (str_of evidence_id ++ (":" ++ entity_id)))

  abbrev pub links_of_mention : Resolved (Json A) F → Json A → Fields A → List (Keyed A)
  links_of_mention r evidence_id common =
      link_mentions r evidence_id common
      ∷ link_of rt "link_evidence_entity" (evidence_entity_id evidence_id r.entity_id) evidence_id
          (text r.entity_id) common (other (rs.of_float r.confidence))
      ∷ []

  unfoldable pub graph_events : Json A → Resolved (Json A) F → Result Exn (List (Keyed A))
  unfolding common_properties upsert_mention_evidence
  graph_events source r = do
    common ← common_properties source
    evidence_id ← item "evidence_id" r.evidence
    found ← upsert_mention_evidence evidence_id common r
    ok (upsert_entity r common ∷ found ∷ links_of_mention r evidence_id common)
