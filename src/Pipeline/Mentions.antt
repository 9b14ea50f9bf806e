-- ===== src/Pipeline/Mentions.antt =====
-- From services/nlp-pipeline/worker.py through services/entity-resolution/worker.py to
-- services/graph-projector/worker.py.
pub mod Kinds
use Prim.Native.String.{String, ◌++◌}
use signalchord.Prelude.{
  arith, ℕ, ◌≡◌, refl, sym, ap, ◌∙◌, subst, true, false, Bool, Option, none, some, List, [], ◌∷◌,
  All, map, Result, ok, err, ok_injective, Dict, lookup, if◌then◌else◌, ◌=ˢ◌,
}
use signalchord.Graph.Json.{Json, text, object, other}
use signalchord.Graph.Letters.{has_letter, has_letter-append_left}
use signalchord.Graph.Contract.{IsVisible, IsAccepted}
use signalchord.Events.Values.{Runtime}
use signalchord.Events.Envelope.{Keyed}
use signalchord.Claims.Worker.Contract.{prefixed-IsVisible}
use signalchord.Entities.Resolve.{
  Resolved, Resolution, accepted_as, resolve, decide_text, resolve_mention, default_aliases,
}
use signalchord.Entities.Worker.Mutations.{
  Resolver, resolve_fields, common_properties, upsert_mention_evidence, graph_events,
}
use signalchord.Entities.Worker.Contract.{IsWritable, graph_events-IsAcceptedAll}
use signalchord.Nlp.Document.{Mention, Language, evidence}
use signalchord.Nlp.Mentions.{extract_mentions}
use signalchord.Nlp.Extract.{Extraction}
use signalchord.Nlp.Worker.Source.{Platform, envelope}
use signalchord.Nlp.Worker.Inputs.{Origin}
use signalchord.Nlp.Worker.Records.{dump_evidence, mention_data}
use signalchord.Pipeline.Mentions.Kinds.{IsKnown, IsNamed, extract_mentions-IsNamed}

-- the aliases that the resolver knows stand for identifiers with a letter
lookup-has_letter :
    (k : String) (aliases : Dict String) (id : String)
    → All (λ a. has_letter a.1 ≡ true) aliases
    → lookup k aliases ≡ some id
    → has_letter id ≡ true
lookup-has_letter k [] id h e = cc
lookup-has_letter k ((j, v) ∷ aliases) id h e = ground (arith, lookup-has_letter k aliases id h.1)

module _ {A V F Raw : Type 0} (rt : Runtime A V) (pf : Platform A) (rs : Resolver A F)
    (strip : String → String) (loads : Raw → Option (Json A))
    (visible : (s : String) → has_letter s ≡ true → IsVisible strip loads s)
    (folded : (s : String) → has_letter s ≡ true → has_letter (rt.casefold s) ≡ true)
    (numeric : (n : ℕ) → (x : F) × (rs.float_of (other (pf.hundredths n)) ≡ ok x)) where
  abbrev decided : Mention → F → Option String → String × String × Bool
  decided m x o =
      decide_text rt.casefold rs.join_split rt.hex_digest rs.zero_float rs.hundredths rs.float_le
        m.text m.entity_type x o

  if-IsVisible :
      (b : Bool) (p q : String × String × Bool)
      → IsVisible strip loads p.0
      → IsVisible strip loads q.0
      → IsVisible strip loads (if b then p else q).0
  if-IsVisible true p q h g = h
  if-IsVisible false p q h g = g

  decided-IsVisible :
      (m : Mention) (x : F) (o : Option String)
      → has_letter m.entity_type ≡ true
      → ((id : String) → o ≡ some id → has_letter id ≡ true)
      → IsVisible strip loads (decided m x o).0
  decided-IsVisible m x none letter h =
      if-IsVisible (rs.float_le (rs.hundredths 90) x) _ _
        (visible _
          (has_letter-append_left (rt.casefold m.entity_type) _ (folded m.entity_type letter)))
        (prefixed-IsVisible rt strip loads visible "candidate:" _ refl)
  decided-IsVisible m x (some id) letter h = visible id (h id refl)

  -- the resolver's answer about a mention of a document, whose confidence is a float
  abbrev pub resolution : Mention → Resolution
  resolution m =
      resolve rt.casefold rs.join_split rt.hex_digest rs.zero_float rs.hundredths rs.float_le
        m.mention_id m.text default_aliases

  accepted-has_letter :
      (m : Mention) (o : Option String) (id : String)
      → ((i : String) → o ≡ some i → has_letter i ≡ true)
      → (accepted_as m.mention_id m.text o).accepted_entity_id ≡ some id
      → has_letter id ≡ true
  accepted-has_letter m none id h e = cc
  accepted-has_letter m (some i) id h e = h id e

  resolution-has_letter :
      (m : Mention) (id : String)
      → (resolution m).accepted_entity_id ≡ some id
      → has_letter id ≡ true
  unfolding resolve
  resolution-has_letter m id =
      accepted-has_letter m (lookup (rs.join_split (rt.casefold m.text)) default_aliases) id (λ i.
        lookup-has_letter (rs.join_split (rt.casefold m.text)) default_aliases i
          (refl, (refl, (refl, tt))))

  module _ (o : Origin A) (document_id : Json A) (result : Extraction A) where
    abbrev pub resolved_of : Mention → F → Resolved (Json A) F
    resolved_of m x =
        let decision = decided m x (resolution m).accepted_entity_id in
        record {
          mention_id = m.mention_id;
          document_id = document_id;
          entity_id = decision.0;
          entity_type = text m.entity_type;
          display_name = m.text;
          confidence = x;
          status = decision.1;
          requires_review = decision.2;
          alternatives = (resolution m).candidates;
          evidence = dump_evidence rt pf m.evidence;
          extraction_model = some (text result.extraction_model);
          extraction_version = some (text result.extraction_version);
        }

    -- the event about a mention
    abbrev pub mention_event : Mention → Json A
    mention_event m = object (
        envelope rt pf "entity.mention-extracted.v1" o.tenant_id o.correlation_id o.causation_id
          (text m.mention_id) (mention_data rt pf document_id result m) "entity-extraction"
          o.occurred_at)

    -- the entity worker resolves the mention and makes mutations of it, and the projector makes a
    -- statement of each
    abbrev pub IsResolved : Mention → Type 0
    IsResolved m =
        (r : Resolved (Json A) F) × (ms : List (Keyed A)) × (resolve_fields rt rs
            (mention_data rt pf document_id result m)
          ≡ ok r)
        × (graph_events rt rs (mention_event m) r ≡ ok ms)
        × All (λ k. IsAccepted strip loads k.1) ms

    pub resolve_fields-mention :
        (m : Mention) (x : F)
        → rs.float_of (other (pf.hundredths m.confidence)) ≡ ok x
        → resolve_fields rt rs (mention_data rt pf document_id result m) ≡ ok (resolved_of m x)
    unfolding resolve_fields resolve_mention
    resolve_fields-mention m x e = rw (e) refl

    pub resolved-IsWritable :
        (m : Mention) (x : F) → IsNamed m → IsWritable rt rs strip loads visible (resolved_of m x)
    resolved-IsWritable m x ((letter, labels), (rest, e)) = (
      decided-IsVisible m x (resolution m).accepted_entity_id letter (resolution-has_letter m),
      (m.entity_type, labels.0, refl, visible m.entity_type letter, labels.1),
      (λ v f. (
        m.evidence.evidence_id,
        sym (ok_injective _ _ f),
        subst (IsVisible strip loads) (sym e)
            (prefixed-IsVisible rt strip loads visible "ev:" rest refl),
      )),
    )

    mention-IsResolved : (m : Mention) → IsNamed m → IsResolved m
    unfolding graph_events common_properties upsert_mention_evidence envelope
    mention-IsResolved m h =
        let (x, e) = numeric m.confidence in
        (
          resolved_of m x,
          _,
          resolve_fields-mention m x e,
          refl,
          graph_events-IsAcceptedAll rt rs strip loads visible (mention_event m) (resolved_of m x) _
              (resolved-IsWritable m x h) refl,
        )

    mentions-IsResolved : (mentions : List Mention) → All IsNamed mentions → All IsResolved mentions
    mentions-IsResolved [] h = tt
    mentions-IsResolved (m ∷ mentions) h =
        (mention-IsResolved m h.0, mentions-IsResolved mentions h.1)

    -- If stripping leaves something of a text with a letter, case folding keeps a letter and float
    -- takes every confidence: of every event that the NLP worker publishes about a mention of a
    -- document, the entity worker resolves the mention and makes mutations without an exception,
    -- and the projector makes a statement of each of them, in an event of any tenant.
    pub extract_mentions-IsResolved :
        (lang : Language) (id body : String) → All IsResolved (extract_mentions lang id body)
    extract_mentions-IsResolved lang id body =
        mentions-IsResolved (extract_mentions lang id body) (extract_mentions-IsNamed lang id body)
