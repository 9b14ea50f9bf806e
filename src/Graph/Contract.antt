-- ===== src/Graph/Contract.antt =====
-- What the projector's build_statement (services/graph-projector/worker.py) takes from the other
-- workers: mutations that it makes a statement of.
use Prim.Native.String.{String}
use signalchord.Prelude.{◌≡◌, refl, true, false, Option, none, some, List, lookup, ◌=ˢ◌, ok}
use signalchord.Graph.Json.{Json, text, object, Fields, get}
use signalchord.Graph.Statement.{
  Statement, node_labels, entity_labels, relationship_types, build_statement,
}

module _ {A Raw : Type 0} (strip : String → String) (loads : Raw → Option (Json A)) where
  -- a text that is not blank
  abbrev pub IsVisible : String → Type 0
  IsVisible s = (strip s =ˢ "") ≡ false

  -- a key that has such a text
  abbrev pub Has : Fields A → String → String → Type 0
  Has d key s = (get key d ≡ some (text s)) × IsVisible s

  -- an event of some tenant that carries the mutation
  abbrev pub IsEventOf : Fields A → Fields A → Type 0
  IsEventOf mutation event =
      (get "payload" event ≡ some (object mutation))
      × ((tenant : String) × Has event "tenant_id" tenant)

  -- the projector makes a statement of each event that carries the mutation
  abbrev pub IsAccepted : Fields A → Type 0
  IsAccepted mutation =
      (event : Fields A)
      → IsEventOf mutation event
      → (s : Statement A) × (build_statement strip loads event ≡ ok s)

  module _ (mutation : Fields A) (kind id : String) (properties : Fields A)
      (has_kind : Has mutation "mutation_type" kind) (has_id : Has mutation "stable_id" id)
      (has_properties : get "properties" mutation ≡ some (object properties))
      (no_takedown : (kind =ˢ "mark_source_takedown") ≡ false) where
    pub node-IsAccepted :
        (labels : List String)
        → (kind =ˢ "upsert_entity") ≡ false
        → lookup kind node_labels ≡ some labels
        → IsAccepted mutation
    unfolding build_statement
    node-IsAccepted labels no_entity h event (carries, (tenant, (has_tenant, visible))) =
        rw
          (
            carries, has_kind.0, has_kind.1, has_id.0, has_id.1, has_properties, has_tenant,
            visible, no_takedown, no_entity, h,
          )
          (_, refl)

    pub entity-IsAccepted :
        (entity_type : String) (labels : List String)
        → (kind =ˢ "upsert_entity") ≡ true
        → Has mutation "entity_type" entity_type
        → lookup entity_type entity_labels ≡ some labels
        → IsAccepted mutation
    unfolding build_statement
    entity-IsAccepted entity_type labels is_entity has_type h event
          (carries, (tenant, (has_tenant, visible))) =
        rw
          (
            carries, has_kind.0, has_kind.1, has_id.0, has_id.1, has_properties, has_tenant,
            visible, no_takedown, is_entity, has_type.0, has_type.1, h,
          )
          (_, refl)

    pub link-IsAccepted :
        (relation from_id to_id : String)
        → (kind =ˢ "upsert_entity") ≡ false
        → lookup kind node_labels ≡ none
        → lookup kind relationship_types ≡ some relation
        → Has mutation "from_id" from_id
        → Has mutation "to_id" to_id
        → IsAccepted mutation
    unfolding build_statement
    link-IsAccepted relation from_id to_id no_entity no_node h has_from has_to event
          (carries, (tenant, (has_tenant, visible))) =
        rw
          (
            carries, has_kind.0, has_kind.1, has_id.0, has_id.1, has_properties, has_tenant,
            visible, no_takedown, no_entity, no_node, h, has_from.0, has_from.1, has_to.0, has_to.1,
          )
          (_, refl)
