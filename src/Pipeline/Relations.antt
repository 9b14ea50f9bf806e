-- ===== src/Pipeline/Relations.antt =====
-- From services/nlp-pipeline/worker.py through services/entity-resolution/worker.py to
-- services/graph-projector/worker.py, for relations.
use Prim.Native.String.{String}
use Prim.Native.String
use signalchord.Prelude.{
  ℕ, ◌≡◌, refl, sym, ap, ◌∙◌, subst, true, false, Bool, Option, none, some, List, [], ◌∷◌, All, ok,
  ok_injective, ◌=ˢ◌,
}
use mathlib.Core.Option.{some-injective}
use signalchord.Graph.Json.{Json, text, object, other, Fields}
use signalchord.Graph.Letters.{has_letter}
use signalchord.Graph.Contract.{IsVisible, IsAccepted}
use signalchord.Events.Values.{Runtime}
use signalchord.Events.Envelope.{Keyed}
use signalchord.Claims.Worker.Contract.{prefixed-IsVisible}
use signalchord.Entities.Resolve.{Resolved}
use signalchord.Entities.Worker.Mutations.{
  Resolver, resolve_fields, common_properties, upsert_mention_evidence, graph_events,
}
use signalchord.Entities.Worker.Relations.{relation_mutation, relation_graph_events}
use signalchord.Entities.Worker.Contract.{IsWritable, relation_graph_events-IsAcceptedAll}
use signalchord.Nlp.Document.{Evidence, Mention, Relation, Language, Pattern, evidence, slice}
use signalchord.Nlp.Relations.{
  relation_keywords, first_predicate, mentions_within, sentence_relation, append_relation,
  relations_of, extract_relations,
}
use signalchord.Nlp.Relations.Endpoints.{IsBetween, IsIdOf, extract_relations-IsBetween}
use signalchord.Nlp.Extract.{Document, Extraction, extraction_of}
use signalchord.Nlp.Worker.Source.{Platform, envelope}
use signalchord.Nlp.Worker.Inputs.{Origin}
use signalchord.Nlp.Worker.Records.{
  or_first, find_mention, or_key_error, mention_by_id, relation_fields, relation_data, mention_data,
}
use signalchord.Nlp.Worker.Lookups.{find_mention-found}
use signalchord.Pipeline.Mentions.Kinds.{IsNamed, extract_mentions-IsNamed}
use signalchord.Pipeline.Mentions.{resolved_of, resolve_fields-mention, resolved-IsWritable}

-- the identifier of a relation is not blank
abbrev pub HasRelationId : Relation → Type 0
HasRelationId r = (rest : String) × (r.relationship_id ≡ String.◌++◌ "relationship:" rest)

append_relation-HasRelationId :
    (lang : Language) (document_id : String) (ev : Evidence) (predicate : Option String)
    (found : List Mention) (rest : List Relation)
    → All HasRelationId rest
    → All HasRelationId
        (append_relation (sentence_relation lang document_id ev predicate found) rest)
append_relation-HasRelationId lang document_id ev predicate [] rest h = h
append_relation-HasRelationId lang document_id ev predicate (m ∷ []) rest h = h
append_relation-HasRelationId lang document_id ev none (m ∷ o ∷ more) rest h = h
append_relation-HasRelationId lang document_id ev (some p) (m ∷ o ∷ more) rest h = ((_, refl), h)

relations_of-HasRelationId :
    (lang : Language) (document_id body : String) (mentions : List Mention) (spans : List (ℕ × ℕ))
    → All HasRelationId (relations_of lang document_id body mentions spans)
unfolding relations_of
relations_of-HasRelationId lang document_id body mentions [] = tt
relations_of-HasRelationId lang document_id body mentions ((start, end) ∷ spans) =
    append_relation-HasRelationId lang document_id (evidence lang document_id body start end)
      (first_predicate relation_keywords (lang.casefold (slice body start end)))
      (mentions_within (start, end) mentions) (relations_of lang document_id body mentions spans)
      (relations_of-HasRelationId lang document_id body mentions spans)

-- a mention that is found is one of the mentions
or_first-IsNamed :
    (o : Option Mention) (b : Bool) (m n : Mention)
    → ((k : Mention) → o ≡ some k → IsNamed k)
    → IsNamed m
    → or_first o b m ≡ some n
    → IsNamed n
or_first-IsNamed (some k) b m n h g e = h n e
or_first-IsNamed none true m n h g e = subst IsNamed (some-injective _ _ e) g
or_first-IsNamed none false m n h g e = h n e

find_mention-IsNamed :
    (id : String) (mentions : List Mention) (n : Mention)
    → All IsNamed mentions
    → find_mention id mentions ≡ some n
    → IsNamed n
find_mention-IsNamed id [] n h e = cc
find_mention-IsNamed id (m ∷ mentions) n h e =
    or_first-IsNamed (find_mention id mentions) (m.mention_id =ˢ id) m n
      (λ k f. find_mention-IsNamed id mentions k h.1 f) h.0 e

mention_by_id-IsNamed :
    (id : String) (mentions : List Mention)
    → All IsNamed mentions
    → IsIdOf mentions id
    → (n : Mention) × (mention_by_id id mentions ≡ ok n) × IsNamed n
unfolding mention_by_id
mention_by_id-IsNamed id mentions h found =
    let (m, e) = find_mention-found id mentions found in
    (m, ap (or_key_error id) e, find_mention-IsNamed id mentions m h e)

module _ {A V F Raw : Type 0} (rt : Runtime A V) (pf : Platform A) (rs : Resolver A F)
    (strip : String → String) (loads : Raw → Option (Json A))
    (visible : (s : String) → has_letter s ≡ true → IsVisible strip loads s)
    (folded : (s : String) → has_letter s ≡ true → has_letter (rt.casefold s) ≡ true)
    (numeric : (n : ℕ) → (x : F) × (rs.float_of (other (pf.hundredths n)) ≡ ok x)) (o : Origin A)
    (document_id : Json A) (result : Extraction A) where
  -- the event about a relation
  abbrev pub relation_event : Relation → Fields A → Json A
  relation_event r d = object (
      envelope rt pf "relationship.extracted.v1" o.tenant_id o.correlation_id o.causation_id
        (text r.relationship_id) d "relation-extraction" o.occurred_at)

  -- the NLP worker finds the mentions, the entity worker resolves them and makes mutations, and the
  -- projector makes a statement of each
  abbrev pub IsRelated : Relation → Type 0
  IsRelated r =
      (d : Fields A) × (ms : List (Keyed A)) × (relation_data rt pf document_id result r ≡ ok d)
      × (relation_graph_events rt rs (relation_event r d) (object d) ≡ ok ms)
      × All (λ k. IsAccepted strip loads k.1) ms

  relation_data-fields :
      (r : Relation) (m n : Mention)
      → mention_by_id r.subject_mention_id result.mentions ≡ ok m
      → mention_by_id r.object_mention_id result.mentions ≡ ok n
      → relation_data rt pf document_id result r
        ≡ ok (relation_fields rt pf document_id result r m n)
  unfolding relation_data
  relation_data-fields r m n e f = rw (e, f) refl

  -- what resolves of the data of a mention can be written
  resolved_data-IsWritable :
      (m : Mention) (d : Fields A) (r : Resolved (Json A) F)
      → IsNamed m
      → mention_data rt pf document_id result m ≡ d
      → resolve_fields rt rs d ≡ ok r
      → IsWritable rt rs strip loads visible r
  resolved_data-IsWritable m d r h e q =
      let (x, f) = numeric m.confidence in
      subst (IsWritable rt rs strip loads visible)
        (ok_injective _ _ (
          sym (
            resolve_fields-mention rt pf rs strip loads visible folded numeric o document_id result
              m x f)
          ∙ ap (resolve_fields rt rs) e
          ∙ q))
        (resolved-IsWritable rt pf rs strip loads visible folded numeric o document_id result m x h)

  relation_graph_events-total :
      (r : Relation) (m n : Mention) (source : Json A) (x y : F)
      → resolve_fields rt rs (mention_data rt pf document_id result m)
        ≡ ok (resolved_of rt pf rs strip loads visible folded numeric o document_id result m x)
      → resolve_fields rt rs (mention_data rt pf document_id result n)
        ≡ ok (resolved_of rt pf rs strip loads visible folded numeric o document_id result n y)
      → let d = relation_fields rt pf document_id result r m n in
        (ms : List (Keyed A)) × (relation_graph_events rt rs (relation_event r d) (object d)
          ≡ ok ms)
  unfolding relation_graph_events graph_events relation_mutation common_properties
      upsert_mention_evidence envelope
  relation_graph_events-total r m n source x y e f = rw (e, f) (_, refl)

  relation-IsRelated :
      (r : Relation)
      → All IsNamed result.mentions
      → HasRelationId r
      → IsBetween result.mentions r
      → IsRelated r
  relation-IsRelated r named (rest, id) (s, t) =
      let (m, em, hm) = mention_by_id-IsNamed r.subject_mention_id result.mentions named s in
      let (n, en, hn) = mention_by_id-IsNamed r.object_mention_id result.mentions named t in
      let (x, ex) = numeric m.confidence in
      let (y, ey) = numeric n.confidence in
      let d = relation_fields rt pf document_id result r m n in
      let (ms, total) =
        relation_graph_events-total r m n (relation_event r d) x y
          (resolve_fields-mention rt pf rs strip loads visible folded numeric o document_id result m
            x ex)
          (resolve_fields-mention rt pf rs strip loads visible folded numeric o document_id result n
            y ey) in
      (
        d,
        ms,
        relation_data-fields r m n em en,
        total,
        relation_graph_events-IsAcceptedAll rt rs strip loads visible (relation_event r d)
            (object d) ms
            (λ v e. (
              r.relationship_id,
              sym (ok_injective _ _ e),
              subst (IsVisible strip loads) (sym id)
                  (prefixed-IsVisible rt strip loads visible "relationship:" rest refl),
            ))
            (λ c q e f. resolved_data-IsWritable m c q hm (ok_injective _ _ e) f)
            (λ c q e f. resolved_data-IsWritable n c q hn (ok_injective _ _ e) f) total,
      )

  relations-IsRelated :
      (relations : List Relation)
      → All IsNamed result.mentions
      → All HasRelationId relations
      → All (IsBetween result.mentions) relations
      → All IsRelated relations
  relations-IsRelated [] named h g = tt
  relations-IsRelated (r ∷ relations) named h g =
      (relation-IsRelated r named h.0 g.0, relations-IsRelated relations named h.1 g.1)

module _ {A V F Raw : Type 0} (rt : Runtime A V) (pf : Platform A) (rs : Resolver A F)
    (strip : String → String) (loads : Raw → Option (Json A))
    (visible : (s : String) → has_letter s ≡ true → IsVisible strip loads s)
    (folded : (s : String) → has_letter s ≡ true → has_letter (rt.casefold s) ≡ true)
    (numeric : (n : ℕ) → (x : F) × (rs.float_of (other (pf.hundredths n)) ≡ ok x)) where
  -- If stripping leaves something of a text with a letter, case folding keeps a letter and float
  -- takes every confidence: of every event that the NLP worker publishes about a relation of a
  -- document, the entity worker resolves both mentions and makes mutations without an exception,
  -- and the projector makes a statement of each of them, in an event of any tenant.
  pub extraction-IsRelated :
      (lang : Language) (doc : Document) (o : Origin A) (document_id : Json A)
      → let result = extraction_of lang pf.hash_embedding doc in
        All
          (IsRelated rt pf rs strip loads visible folded numeric o document_id result)
          result.relations
  unfolding extract_relations
  extraction-IsRelated lang doc o document_id =
      let result = extraction_of lang pf.hash_embedding doc in
      relations-IsRelated rt pf rs strip loads visible folded numeric o document_id result
        result.relations (extract_mentions-IsNamed lang doc.document_id doc.text)
        (relations_of-HasRelationId lang doc.document_id doc.text result.mentions
          (lang.finditer Pattern.sentence doc.text))
        (extract_relations-IsBetween lang doc.document_id doc.text result.mentions)
