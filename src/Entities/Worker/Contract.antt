-- ===== src/Entities/Worker/Contract.antt =====
-- The mutations of services/entity-resolution/worker.py and what
-- services/graph-projector/worker.py makes of them.
use Prim.Native.String.{String}
use signalchord.Prelude.{
  ◌≡◌, refl, ap, subst, true, false, Option, none, some, List, [], ◌∷◌, All, All-append, ok,
  bind-ok_inv, ok_injective, Bool, lookup, ◌=ˢ◌, if◌then◌else◌, err,
}
use signalchord.Graph.Json.{Json, text, object, other, Fields}
use signalchord.Graph.Letters.{has_letter}
use signalchord.Graph.Statement.{node_labels, entity_labels, relationship_types}
use signalchord.Graph.Contract.{
  IsVisible, IsAccepted, node-IsAccepted, entity-IsAccepted, link-IsAccepted,
}
use signalchord.Events.Values.{Runtime, item, type_error}
use signalchord.Events.Envelope.{Keyed}
use signalchord.Claims.Worker.Mutations.{get_or_null, article_of}
use signalchord.Claims.Worker.Contract.{IsId, HasId, prefixed-IsVisible, link_of-IsAccepted}
use signalchord.Entities.Resolve.{Resolved}
use signalchord.Entities.Worker.Mutations.{
  Resolver, common_properties, upsert_entity, upsert_mention_evidence, evidence_entity_id,
  links_of_mention, graph_events, resolve_fields,
}
use signalchord.Entities.Worker.Relations.{
  predicate_mutations, mutation_of, find_mutation, relation_mutation, relation_graph_events,
  part_of,
}

-- a mutation that is a relationship of the projector
abbrev pub IsLink : String → Type 0
IsLink kind =
    ((kind =ˢ "mark_source_takedown") ≡ false)
    × ((kind =ˢ "upsert_entity") ≡ false)
    × (lookup kind node_labels ≡ none)
    × ((r : String) × (lookup kind relationship_types ≡ some r))
    × (has_letter kind ≡ true)

pick-IsLink :
    (b : Bool) (kind : String) (o : Option String)
    → IsLink kind
    → IsLink (mutation_of o)
    → IsLink (mutation_of (if b then some kind else o))
pick-IsLink true kind o h k = h
pick-IsLink false kind o h k = k

-- the relationship of any predicate, also of an unknown one
mutation_of-IsLink : (p : String) → IsLink (mutation_of (lookup p predicate_mutations))
mutation_of-IsLink p =
    pick-IsLink ("PARTNERED_WITH" =ˢ p) "link_partnered_with" _ (refl, refl, refl, (_, refl), refl)
      (pick-IsLink ("ACQUIRED" =ˢ p) "link_acquired" _ (refl, refl, refl, (_, refl), refl)
        (pick-IsLink ("INVESTED_IN" =ˢ p) "link_invested_in" _ (refl, refl, refl, (_, refl), refl)
          (pick-IsLink ("COMPETES_WITH" =ˢ p) "link_competes_with" _
            (refl, refl, refl, (_, refl), refl)
            (pick-IsLink ("REGULATES" =ˢ p) "link_regulates" _ (refl, refl, refl, (_, refl), refl)
              (pick-IsLink ("AFFECTS" =ˢ p) "link_affects" _ (refl, refl, refl, (_, refl), refl)
                (pick-IsLink ("RELATED_TO" =ˢ p) "link_related_to" none
                  (refl, refl, refl, (_, refl), refl) (refl, refl, refl, (_, refl), refl)))))))

default-IsLink :
    (b : Bool) (kind : String)
    → (if b then ok (mutation_of none) else err type_error) ≡ ok kind
    → IsLink kind
default-IsLink true kind h = subst IsLink (ok_injective _ _ h) (refl, refl, refl, (_, refl), refl)
default-IsLink false kind h = cc

find_mutation-IsLink :
    {A : Type 0} (is_hashable : A → Bool) (predicate : Json A) (kind : String)
    → find_mutation is_hashable predicate ≡ ok kind
    → IsLink kind
find_mutation-IsLink is_hashable (text p) kind h =
    subst IsLink (ok_injective _ _ h) (mutation_of-IsLink p)
find_mutation-IsLink is_hashable (object d) kind h = cc
find_mutation-IsLink is_hashable (other a) kind h = default-IsLink (is_hashable a) kind h

module _ {A V F Raw : Type 0} (rt : Runtime A V) (rs : Resolver A F) (strip : String → String)
    (loads : Raw → Option (Json A))
    (visible : (s : String) → has_letter s ≡ true → IsVisible strip loads s) where
  -- A mention that the projector can write: its identifier is not blank and its type is one of the
  -- projector's, and its evidence has an identifier.
  abbrev pub IsWritable : Resolved (Json A) F → Type 0
  IsWritable r =
      IsVisible strip loads r.entity_id
      × ((kind : String) × (labels : List String) × (r.entity_type ≡ text kind)
          × IsVisible strip loads kind
          × (lookup kind entity_labels ≡ some labels))
      × HasId rt strip loads visible "evidence_id" r.evidence

  -- every one of the mutations is one that the projector makes a statement of
  abbrev pub IsAcceptedAll : List (Keyed A) → Type 0
  IsAcceptedAll ms = All (λ k. IsAccepted strip loads k.1) ms

  evidence-IsAccepted :
      (evidence_id : Json A) (common : Fields A) (r : Resolved (Json A) F) (k : Keyed A)
      → IsId rt strip loads visible evidence_id
      → upsert_mention_evidence rt rs evidence_id common r ≡ ok k
      → IsAccepted strip loads k.1
  unfolding upsert_mention_evidence
  evidence-IsAccepted evidence_id common r k (i, ei, vi) h =
      let (_, _, h₁) = bind-ok_inv (item "start_offset" r.evidence) _ k h in
      let (_, _, h₂) = bind-ok_inv (item "end_offset" r.evidence) _ k h₁ in
      let (_, _, h₃) = bind-ok_inv (item "span_hash" r.evidence) _ k h₂ in
      subst (λ k. IsAccepted strip loads k.1) (ok_injective _ _ h₃)
        (node-IsAccepted strip loads _ "upsert_evidence" i _ (refl, visible "upsert_evidence" refl)
          (ap some ei, vi) refl refl ("Evidence" ∷ []) refl refl)

  entity-IsAcceptedOne :
      (r : Resolved (Json A) F) (common : Fields A)
      → IsWritable r
      → IsAccepted strip loads (upsert_entity rt rs r common).1
  entity-IsAcceptedOne r common (id, (kind, labels, is_kind, v, e), _) =
      entity-IsAccepted strip loads _ "upsert_entity" r.entity_id _
        (refl, visible "upsert_entity" refl) (refl, id) refl refl kind labels refl
        (ap some is_kind, v) e

  links_of_mention-IsAccepted :
      (r : Resolved (Json A) F) (evidence_id : Json A) (common : Fields A)
      → IsVisible strip loads r.entity_id
      → IsId rt strip loads visible evidence_id
      → IsAcceptedAll (links_of_mention rt rs r evidence_id common)
  links_of_mention-IsAccepted r evidence_id common v e = (
    link-IsAccepted strip loads _ "link_mentions" _ _ (refl, visible "link_mentions" refl)
        (refl, prefixed-IsVisible rt strip loads visible "mentions:" r.mention_id refl) refl refl
        "MENTIONS" (article_of rt r.document_id) r.entity_id refl refl refl
        (refl, prefixed-IsVisible rt strip loads visible "article:" (rt.str_of r.document_id) refl)
        (refl, v),
    (
      link_of-IsAccepted rt strip loads visible "link_evidence_entity" "EVIDENCE_FOR"
          (evidence_entity_id rt rs evidence_id r.entity_id) evidence_id (text r.entity_id) common
          (other (rs.of_float r.confidence)) refl refl refl refl refl
          (_, refl, prefixed-IsVisible rt strip loads visible "evidence-entity:" _ refl) e
          (_, refl, v),
      tt,
    ),
  )

  -- If stripping leaves something of a text with a letter: every mutation that a resolved mention
  -- becomes, in an event of any tenant, is one that the projector makes a statement of, provided
  -- that its entity's identifier is not blank, that its type is one of the projector's and that its
  -- evidence has an identifier which is not blank.
  pub graph_events-IsAcceptedAll :
      (source : Json A) (r : Resolved (Json A) F) (ms : List (Keyed A))
      → IsWritable r
      → graph_events rt rs source r ≡ ok ms
      → IsAcceptedAll ms
  unfolding graph_events
  graph_events-IsAcceptedAll source r ms writable h =
      let (common, _, h₁) = bind-ok_inv (common_properties rt rs source) _ ms h in
      let (evidence_id, e₂, h₂) = bind-ok_inv (item "evidence_id" r.evidence) _ ms h₁ in
      let (found, e₃, h₃) =
        bind-ok_inv (upsert_mention_evidence rt rs evidence_id common r) _ ms h₂ in
      let e = writable.2 evidence_id e₂ in
      subst IsAcceptedAll (ok_injective _ _ h₃) (
        entity-IsAcceptedOne r common writable,
        (
          evidence-IsAccepted evidence_id common r found e e₃,
          links_of_mention-IsAccepted r evidence_id common writable.0 e,
        ),
      )

  relation_mutation-IsAccepted :
      (source payload : Json A) (common : Fields A) (from_id to_id : String) (k : Keyed A)
      → HasId rt strip loads visible "relationship_id" payload
      → IsVisible strip loads from_id
      → IsVisible strip loads to_id
      → relation_mutation rt rs source payload common from_id to_id ≡ ok k
      → IsAccepted strip loads k.1
  unfolding relation_mutation
  relation_mutation-IsAccepted source payload common from_id to_id k has_id vf vt h =
      let (id, e₁, h₁) = bind-ok_inv (item "relationship_id" payload) _ k h in
      let (predicate, _, h₂) = bind-ok_inv (item "predicate" payload) _ k h₁ in
      let (kind, e₃, h₃) = bind-ok_inv (find_mutation rs.is_hashable predicate) _ k h₂ in
      let (_, _, h₄) = bind-ok_inv (item "confidence" payload) _ k h₃ in
      let (evidence, _, h₅) = bind-ok_inv (item "evidence" payload) _ k h₄ in
      let (_, _, h₆) = bind-ok_inv (item "evidence_id" evidence) _ k h₅ in
      let (_, _, h₇) = bind-ok_inv (get_or_null rt "extraction_model" payload) _ k h₆ in
      let (_, _, h₈) = bind-ok_inv (get_or_null rt "extraction_version" payload) _ k h₇ in
      let (_, _, h₉) = bind-ok_inv (get_or_null rt "occurred_at" source) _ k h₈ in
      let (a, b, c, (relation, d), letter) =
        find_mutation-IsLink rs.is_hashable predicate kind e₃ in
      let (i, ei, vi) = has_id id e₁ in
      subst (λ k. IsAccepted strip loads k.1) (ok_injective _ _ h₉)
        (link-IsAccepted strip loads _ kind i _ (refl, visible kind letter) (ap some ei, vi) refl a
          relation from_id to_id b c d (refl, vf) (refl, vt))

  -- a part of the relation whose mention, when it resolves, is one that the projector can write
  abbrev pub IsWritablePart : String → Json A → Type 0
  IsWritablePart part payload =
      (d : Fields A) (r : Resolved (Json A) F)
      → part_of rt rs part payload ≡ ok d
      → resolve_fields rt rs d ≡ ok r
      → IsWritable r

  -- If stripping leaves something of a text with a letter: every mutation that a relation becomes
  -- is one that the projector makes a statement of, for any predicate, also one that is not known,
  -- provided that the relation has an identifier that is not blank and that its subject and its
  -- object are mentions which the projector can write.
  pub relation_graph_events-IsAcceptedAll :
      (source payload : Json A) (ms : List (Keyed A))
      → HasId rt strip loads visible "relationship_id" payload
      → IsWritablePart "subject" payload
      → IsWritablePart "object" payload
      → relation_graph_events rt rs source payload ≡ ok ms
      → IsAcceptedAll ms
  unfolding relation_graph_events
  relation_graph_events-IsAcceptedAll source payload ms has_id writable₁ writable₂ h =
      let (d₁, p₁, h₁) = bind-ok_inv (part_of rt rs "subject" payload) _ ms h in
      let (d₂, p₂, h₂) = bind-ok_inv (part_of rt rs "object" payload) _ ms h₁ in
      let (r₁, q₁, h₃) = bind-ok_inv (resolve_fields rt rs d₁) _ ms h₂ in
      let (r₂, q₂, h₄) = bind-ok_inv (resolve_fields rt rs d₂) _ ms h₃ in
      let (common, _, h₅) = bind-ok_inv (common_properties rt rs source) _ ms h₄ in
      let (xs, e₁, h₆) = bind-ok_inv (graph_events rt rs source r₁) _ ms h₅ in
      let (ys, e₂, h₇) = bind-ok_inv (graph_events rt rs source r₂) _ ms h₆ in
      let (k, e₃, h₈) =
        bind-ok_inv (relation_mutation rt rs source payload common r₁.entity_id r₂.entity_id) _ ms
          h₇ in
      let w₁ = writable₁ d₁ r₁ p₁ q₁ in
      let w₂ = writable₂ d₂ r₂ p₂ q₂ in
      subst IsAcceptedAll (ok_injective _ _ h₈) (
        All-append (λ k. IsAccepted strip loads k.1) xs _
          (graph_events-IsAcceptedAll source r₁ xs w₁ e₁)
          (All-append (λ k. IsAccepted strip loads k.1) ys (k ∷ [])
            (graph_events-IsAcceptedAll source r₂ ys w₂ e₂)
            (
              relation_mutation-IsAccepted source payload common r₁.entity_id r₂.entity_id k has_id
                  w₁.0 w₂.0 e₃,
              tt,
            )))
