-- ===== src/Nlp/Worker/Records.antt =====
-- services/nlp-pipeline/worker.py: the payloads of the events about mentions, claims and relations,
-- about the policy and about the end of the work.
use Prim.Native.String.{String, ◌++◌}
use signalchord.Prelude
use signalchord.Prelude.{
  ℕ, Bool, false, ◌||◌, Option, none, some, List, [], ◌∷◌, length, map, Result, ok, err, ◌>>=◌,
  ◌=ˢ◌, if◌then◌else◌,
}
use signalchord.Kafka.World.{Exn}
use signalchord.Graph.Json.{Json, text, object, other, Fields}
use signalchord.Events.Values.{Runtime, dict, merge, key_error}
use signalchord.Nlp.Document.{Evidence, Mention, Claim, Relation, Language, is_in}
use signalchord.Nlp.Extract.{Extraction}
use signalchord.Nlp.Worker.Source.{Platform, or_else}

-- `mention_by_id[id]`: of the mentions with the id, the last
abbrev pub or_first : Option Mention → Bool → Mention → Option Mention
or_first (some later) b m = some later
or_first none b m = if b then some m else none

abbrev pub find_mention : String → List Mention → Option Mention
find_mention id [] = none
find_mention id (m ∷ mentions) = or_first (find_mention id mentions) (m.mention_id =ˢ id) m

abbrev pub or_key_error : String → Option Mention → Result Exn Mention
or_key_error id none = err (key_error id)
or_key_error id (some m) = ok m

unfoldable pub mention_by_id : String → List Mention → Result Exn Mention
mention_by_id id mentions = or_key_error id (find_mention id mentions)

abbrev pub any_location : List Mention → Bool
any_location [] = false
any_location (m ∷ mentions) = (m.entity_type =ˢ "Location") || any_location mentions

abbrev pub any_acme : List Mention → Bool
any_acme [] = false
any_acme (m ∷ mentions) = is_in "Acme" m.text || any_acme mentions

module _ {A V : Type 0} (rt : Runtime A V) (pf : Platform A) where
  open rt use {number, strings}
  open pf use {hundredths, entity_relevance}

  -- `model_dump(mode="json")`
  abbrev pub dump_evidence : Evidence → Json A
  dump_evidence ev = object (
      dict (
        ("evidence_id", text ev.evidence_id)
        ∷ ("document_id", text ev.document_id)
        ∷ ("start_offset", other (number ev.start_offset))
        ∷ ("end_offset", other (number ev.end_offset))
        ∷ ("span_hash", text ev.span_hash)
        ∷ []))

  abbrev pub dump_mention : Mention → Fields A
  dump_mention m = dict (
      ("mention_id", text m.mention_id)
      ∷ ("text", text m.text)
      ∷ ("entity_type", text m.entity_type)
      ∷ ("confidence", other (hundredths m.confidence))
      ∷ ("evidence", dump_evidence m.evidence)
      ∷ [])

  abbrev pub dump_claim : Claim → Fields A
  dump_claim c = dict (
      ("claim_id", text c.claim_id)
      ∷ ("proposition", text c.proposition)
      ∷ ("stance", text c.stance)
      ∷ ("confidence", other (hundredths c.confidence))
      ∷ ("evidence", dump_evidence c.evidence)
      ∷ [])

  abbrev pub dump_relation : Relation → Fields A
  dump_relation r = dict (
      ("relationship_id", text r.relationship_id)
      ∷ ("subject_mention_id", text r.subject_mention_id)
      ∷ ("predicate", text r.predicate)
      ∷ ("object_mention_id", text r.object_mention_id)
      ∷ ("confidence", other (hundredths r.confidence))
      ∷ ("evidence", dump_evidence r.evidence)
      ∷ [])

  module _ (document_id : Json A) (result : Extraction A) where
    abbrev pub model_entries : List (String × Json A)
    model_entries =
        ("extraction_model", text result.extraction_model)
        ∷ ("extraction_version", text result.extraction_version)
        ∷ []

    abbrev pub mention_data : Mention → Fields A
    mention_data m = merge (dump_mention m) (("document_id", document_id) ∷ model_entries)

    abbrev pub claim_data : Claim → Fields A
    claim_data c = merge (dump_claim c) (("document_id", document_id) ∷ model_entries)

    -- the data of a relation between two mentions
    abbrev pub relation_fields : Relation → Mention → Mention → Fields A
    relation_fields r subject object_ = merge (dump_relation r) (
        ("document_id", document_id)
        ∷ ("subject", object (dump_mention subject))
        ∷ ("object", object (dump_mention object_))
        ∷ model_entries)

    unfoldable pub relation_data : Relation → Result Exn (Fields A)
    unfolding mention_by_id
    relation_data r = do
      subject ← mention_by_id r.subject_mention_id result.mentions
      object_ ← mention_by_id r.object_mention_id result.mentions
      ok (relation_fields r subject object_)

    abbrev pub summary : Language → String
    summary lang =
        "Extracted "
        ++ (lang.show (length result.mentions)
            ++ (" entities, "
                ++ (lang.show (length result.claims)
                    ++ (" claims and "
                        ++ (lang.show (length result.relations) ++ " relationships.")))))

    abbrev pub inputs_of : Fields A
    inputs_of = dict (
        ("source_trust", other (hundredths 75))
        ∷ ("corroboration_count", other (number 1))
        ∷ ("contradiction_count", other (number 0))
        ∷ ("novelty", other (hundredths 80))
        ∷ ("entity_relevance", other (entity_relevance (length result.mentions)))
        ∷ ("graph_centrality", other (hundredths 40))
        ∷ (
          "geographic_relevance",
          other (hundredths (if any_location result.mentions then 80 else 20)),
        )
        ∷ ("watchlist_match", other (hundredths (if any_acme result.mentions then 100 else 0)))
        ∷ ("recency", other (hundredths 100))
        ∷ ("source_diversity", other (hundredths 40))
        ∷ [])

    abbrev pub evidence_ids : List String
    evidence_ids = Prelude.◌++◌ (map (λ m. m.evidence.evidence_id) result.mentions) (
        Prelude.◌++◌ (map (λ c. c.evidence.evidence_id) result.claims)
          (map (λ r. r.evidence.evidence_id) result.relations))

    -- the title that the payload has, or null
    unfoldable pub policy_inputs : Language → Json A → Fields A
    policy_inputs lang title = dict (
        ("policy_id", text "default-watchlist-novelty")
        ∷ ("policy_version_id", text "v1")
        ∷ ("inputs", object inputs_of)
        ∷ ("evidence_ids", other (strings evidence_ids))
        ∷ ("graph_path_ids", other (strings (map (λ r. r.relationship_id) result.relations)))
        ∷ ("title", or_else rt pf title (text "New intelligence signal"))
        ∷ ("summary", text (summary lang))
        ∷ [])

    abbrev pub completed : Fields A
    completed = dict (
        ("document_id", document_id)
        ∷ ("mentions", other (number (length result.mentions)))
        ∷ ("claims", other (number (length result.claims)))
        ∷ ("relations", other (number (length result.relations)))
        ∷ ("topics", other (strings result.topics))
        ∷ model_entries)
