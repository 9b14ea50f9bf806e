-- ===== src/Graph/Statement.antt =====
-- services/graph-projector/worker.py: parse_event and build_statement.
use Prim.Native.String.{String, ◌++◌}
use signalchord.Prelude.{
  Option, none, some, List, [], ◌∷◌, Dict, lookup, ◌=ˢ◌, if◌then◌else◌, Result, ok, err, ◌>>=◌,
}
use signalchord.Graph.Json.{Json, text, object, other, Fields, nil, field, get, put}

-- PermanentMutationError, a ValueError; a constructor stands for its message. Nothing else is
-- raised here.
pub data PermanentMutationError : Type 0 where
  not_a_string : String → PermanentMutationError
  invalid_json not_an_object payload_not_an_object properties_not_an_object : PermanentMutationError
  unsupported_entity_type unsupported_mutation_type : String → PermanentMutationError

abbrev pub Parsed : Type 0 → Type 0
Parsed B = Result PermanentMutationError B

abbrev pub node_labels : Dict (List String)
node_labels =
    ("upsert_document", "Document" ∷ [])
    ∷ ("upsert_article", "Article" ∷ [])
    ∷ ("upsert_source", "Source" ∷ [])
    ∷ ("upsert_evidence", "Evidence" ∷ [])
    ∷ ("upsert_claim", "Claim" ∷ [])
    ∷ []

abbrev pub entity_labels : Dict (List String)
entity_labels =
    ("Company", "Entity" ∷ "Company" ∷ [])
    ∷ ("Organization", "Entity" ∷ "Organization" ∷ [])
    ∷ ("GovernmentAgency", "Entity" ∷ "GovernmentAgency" ∷ [])
    ∷ ("Person", "Entity" ∷ "Person" ∷ [])
    ∷ ("Location", "Entity" ∷ "Location" ∷ [])
    ∷ []

abbrev pub relationship_types : Dict String
relationship_types =
    ("link_published", "PUBLISHED")
    ∷ ("link_article_document", "DERIVED_FROM")
    ∷ ("link_mentions", "MENTIONS")
    ∷ ("link_evidence_entity", "EVIDENCE_FOR")
    ∷ ("link_evidence_claim", "EVIDENCE_FOR")
    ∷ ("link_article_claim", "MAKES_CLAIM")
    ∷ ("link_partnered_with", "PARTNERED_WITH")
    ∷ ("link_acquired", "ACQUIRED")
    ∷ ("link_invested_in", "INVESTED_IN")
    ∷ ("link_competes_with", "COMPETES_WITH")
    ∷ ("link_regulates", "REGULATES")
    ∷ ("link_affects", "AFFECTS")
    ∷ ("link_related_to", "RELATED_TO")
    ∷ []

pub record Statement (A : Type 0) : Type 0 where
  pub query : String
  pub parameters : Fields A

abbrev pub takedown_query : String
takedown_query =
    "MATCH (source:GraphNode {tenant_id: $tenant_id, stable_id: $stable_id}) "
    ++ ("SET source.takedown_status = 'requested', source += $properties "
        ++ ("WITH source "
            ++ ("OPTIONAL MATCH (article:GraphNode)-[:PUBLISHED]->(source) "
                ++ ("SET article.takedown_status = 'source_requested' "
                    ++ "RETURN source.stable_id AS stable_id"))))

-- `" ".join(f"SET n:{label}" for label in labels)`
abbrev pub label_set : List String → String
label_set [] = ""
label_set (label ∷ []) = "SET n:" ++ label
label_set (label ∷ next ∷ labels) = ("SET n:" ++ label) ++ (" " ++ label_set (next ∷ labels))

abbrev pub node_query : List String → String
node_query labels =
    "MERGE (n:GraphNode {tenant_id: $tenant_id, stable_id: $stable_id}) "
    ++ (label_set labels ++ (" " ++ ("SET n += $properties " ++ "RETURN n.stable_id AS stable_id")))

abbrev pub relationship_query : String → String
relationship_query relationship_type =
    "MERGE (a:GraphNode {tenant_id: $tenant_id, stable_id: $from_id}) "
    ++ ("MERGE (b:GraphNode {tenant_id: $tenant_id, stable_id: $to_id}) "
        ++ (("MERGE (a)-[r:" ++ (relationship_type ++ " {stable_id: $stable_id}]->(b) "))
            ++ ("SET r += $properties " ++ "RETURN r.stable_id AS stable_id")))

-- `strip` knows the white space of all of Unicode. Text that is not JSON, or no text at all, is
-- `none` for `json.loads`.
module _ {A Raw : Type 0} (strip : String → String) (loads : Raw → Option (Json A)) where
  abbrev pub string_of : String → Option (Json A) → Parsed String
  string_of key (some (text s)) = if strip s =ˢ "" then err (not_a_string key) else ok s
  string_of key (some (object d)) = err (not_a_string key)
  string_of key (some (other a)) = err (not_a_string key)
  string_of key none = err (not_a_string key)

  -- _required_string, and _tenant_id
  abbrev pub required_string : Fields A → String → Parsed String
  required_string payload key = string_of key (get key payload)

  -- _properties
  abbrev pub properties_of : Option (Json A) → Parsed (Fields A)
  properties_of none = ok nil
  properties_of (some (text s)) = err properties_not_an_object
  properties_of (some (object d)) = ok d
  properties_of (some (other a)) = err properties_not_an_object

  abbrev pub object_of : PermanentMutationError → Option (Json A) → Parsed (Fields A)
  object_of e none = err e
  object_of e (some (text s)) = err e
  object_of e (some (object d)) = ok d
  object_of e (some (other a)) = err e

  unfoldable pub parse_event : Raw → Parsed (Fields A)
  parse_event raw = elim (loads raw) [
    | none ↦ err invalid_json
    | some decoded ↦ object_of not_an_object (some decoded)
  ]

  -- the parameters of a node's statement
  abbrev pub node_parameters : String → String → Fields A → Fields A
  node_parameters stable_id tenant_id properties = field "stable_id" (text stable_id) (
      field "tenant_id" (text tenant_id)
        (field "properties" (object (put "tenant_id" (text tenant_id) properties)) nil))

  abbrev pub relationship_parameters : String → String → String → String → Fields A → Fields A
  relationship_parameters stable_id from_id to_id tenant_id properties =
      field "stable_id" (text stable_id) (
        field "from_id" (text from_id) (
          field "to_id" (text to_id) (
            field "tenant_id" (text tenant_id)
              (field "properties" (object (put "tenant_id" (text tenant_id) properties)) nil))))

  abbrev pub labels_of_entity : String → Option (List String) → Parsed (Option (List String))
  labels_of_entity entity_type none = err (unsupported_entity_type entity_type)
  labels_of_entity entity_type (some labels) = ok (some labels)

  -- the labels of the node that a mutation writes, if it writes one
  abbrev pub find_labels : Fields A → String → Parsed (Option (List String))
  find_labels payload mutation_type =
      if mutation_type =ˢ "upsert_entity"
      then (required_string payload "entity_type" >>= λ entity_type.
          labels_of_entity entity_type (lookup entity_type entity_labels))
      else ok (lookup mutation_type node_labels)

  abbrev pub relationship_statement :
      Fields A → String → String → String → Fields A → Option String → Parsed (Statement A)
  relationship_statement payload mutation_type stable_id tenant_id properties none =
      err (unsupported_mutation_type mutation_type)
  relationship_statement payload mutation_type stable_id tenant_id properties (some r) = do
    from_id ← required_string payload "from_id"
    to_id ← required_string payload "to_id"
    ok (record {
      query = relationship_query r;
      parameters = relationship_parameters stable_id from_id to_id tenant_id properties;
    })

  abbrev pub labelled_statement :
      Fields A → String → String → String → Fields A → Option (List String) → Parsed (Statement A)
  labelled_statement payload mutation_type stable_id tenant_id properties none =
      relationship_statement payload mutation_type stable_id tenant_id properties
        (lookup mutation_type relationship_types)
  labelled_statement payload mutation_type stable_id tenant_id properties (some labels) =
      ok (record {
        query = node_query labels;
        parameters = node_parameters stable_id tenant_id properties;
      })

  abbrev pub statement_for : Fields A → String → String → Fields A → String → Parsed (Statement A)
  statement_for payload mutation_type stable_id properties tenant_id =
      if mutation_type =ˢ "mark_source_takedown"
      then ok (record {
        query = takedown_query;
        parameters = node_parameters stable_id tenant_id properties;
      })
      else (find_labels payload mutation_type
          >>= labelled_statement payload mutation_type stable_id tenant_id properties)

  unfoldable pub build_statement : Fields A → Parsed (Statement A)
  build_statement event = do
    payload ← object_of payload_not_an_object (get "payload" event)
    mutation_type ← required_string payload "mutation_type"
    stable_id ← required_string payload "stable_id"
    properties ← properties_of (get "properties" payload)
    tenant_id ← required_string event "tenant_id"
    statement_for payload mutation_type stable_id properties tenant_id
