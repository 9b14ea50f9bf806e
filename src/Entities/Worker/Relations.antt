-- ===== src/Entities/Worker/Relations.antt =====
-- services/entity-resolution/worker.py: relation_graph_events.
use Prim.Native.String.{String}
use signalchord.Prelude
use signalchord.Prelude.{
  Bool, if◌then◌else◌, Option, none, some, Dict, lookup, List, [], ◌∷◌, Result, ok, err, ◌>>=◌,
}
use signalchord.Kafka.World.{Exn}
use signalchord.Graph.Json.{Json, text, object, other, Fields}
use signalchord.Events.Values.{Runtime, item, dict, merge, merge_item, type_error}
use signalchord.Events.Envelope.{Keyed}
use signalchord.Claims.Worker.Mutations.{get_or_null}
use signalchord.Entities.Worker.Mutations.{
  Resolver, resolve_fields, common_properties, graph_events,
}

abbrev pub predicate_mutations : Dict String
predicate_mutations =
    ("PARTNERED_WITH", "link_partnered_with")
    ∷ ("ACQUIRED", "link_acquired")
    ∷ ("INVESTED_IN", "link_invested_in")
    ∷ ("COMPETES_WITH", "link_competes_with")
    ∷ ("REGULATES", "link_regulates")
    ∷ ("AFFECTS", "link_affects")
    ∷ ("RELATED_TO", "link_related_to")
    ∷ []

-- the mutation of a predicate, `"link_related_to"` for one that is not known
abbrev pub mutation_of : Option String → String
mutation_of none = "link_related_to"
mutation_of (some m) = m

-- `PREDICATE_MUTATIONS.get(predicate, ...)`; an object or a list cannot be a key of a dict
abbrev pub find_mutation : {A : Type 0} → (A → Bool) → Json A → Result Exn String
find_mutation is_hashable (text predicate) = ok (mutation_of (lookup predicate predicate_mutations))
find_mutation is_hashable (object d) = err type_error
find_mutation is_hashable (other a) =
    if is_hashable a then ok (mutation_of none) else err type_error

module _ {A V F : Type 0} (rt : Runtime A V) (rs : Resolver A F) where
  -- `payload[part] | {...}`
  abbrev pub part_of : String → Json A → Result Exn (Fields A)
  part_of part payload = do
    mention ← item part payload
    document_id ← item "document_id" payload
    extraction_model ← get_or_null rt "extraction_model" payload
    extraction_version ← get_or_null rt "extraction_version" payload
    merge_item mention (
        ("document_id", document_id)
        ∷ ("extraction_model", extraction_model)
        ∷ ("extraction_version", extraction_version)
        ∷ [])

  unfoldable pub relation_mutation :
      Json A → Json A → Fields A → String → String → Result Exn (Keyed A)
  relation_mutation source payload common from_id to_id = do
    relationship_id ← item "relationship_id" payload
    predicate ← item "predicate" payload
    mutation_type ← find_mutation rs.is_hashable predicate
    confidence ← item "confidence" payload
    evidence ← item "evidence" payload
    evidence_id ← item "evidence_id" evidence
    extraction_model ← get_or_null rt "extraction_model" payload
    extraction_version ← get_or_null rt "extraction_version" payload
    valid_from ← get_or_null rt "occurred_at" source
    ok (
      relationship_id,
      dict (
          ("mutation_type", text mutation_type)
          ∷ ("stable_id", relationship_id)
          ∷ ("from_id", text from_id)
          ∷ ("to_id", text to_id)
          ∷ (
            "properties",
            object (
                merge common (
                  ("confidence", confidence)
                  ∷ ("status", text "candidate")
                  ∷ ("evidence_id", evidence_id)
                  ∷ ("extraction_model", extraction_model)
                  ∷ ("extraction_version", extraction_version)
                  ∷ ("valid_from", valid_from)
                  ∷ [])),
          )
          ∷ []),
    )

  -- the exceptions of the two lists of events come after those of the relation's identifier, which
  -- are of the same class
  unfoldable pub relation_graph_events : Json A → Json A → Result Exn (List (Keyed A))
  unfolding resolve_fields graph_events relation_mutation
  relation_graph_events source payload = do
    subject_payload ← part_of "subject" payload
    object_payload ← part_of "object" payload
    subject ← resolve_fields rt rs subject_payload
    related ← resolve_fields rt rs object_payload
    common ← common_properties rt rs source
    subject_events ← graph_events rt rs source subject
    object_events ← graph_events rt rs source related
    relation ← relation_mutation source payload common subject.entity_id related.entity_id
    ok (Prelude.◌++◌ subject_events (Prelude.◌++◌ object_events (relation ∷ [])))
