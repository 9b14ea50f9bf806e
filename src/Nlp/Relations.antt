-- ===== src/Nlp/Relations.antt =====
-- services/nlp-pipeline/app.py: extract_claims and extract_relations.
pub mod Endpoints
use Prim.Native.String.{String, ◌++◌}
use signalchord.Prelude.{ℕ, Bool, ◌&&◌, Option, none, some, List, [], ◌∷◌, leb, if◌then◌else◌, map}
use signalchord.Kafka.Envelope.{prefix}
use signalchord.Nlp.Document.{
  Evidence, Mention, Claim, Relation, Pattern, Language, evidence, stance, slice, any_in,
}

abbrev pub relation_keywords : List (String × List String)
relation_keywords =
    ("PARTNERED_WITH", "partnership" ∷ "partnered" ∷ "collaboration" ∷ "alliance" ∷ [])
    ∷ ("ACQUIRED", "acquired" ∷ "acquisition" ∷ "bought" ∷ [])
    ∷ ("INVESTED_IN", "invested" ∷ "investment" ∷ "funding" ∷ [])
    ∷ ("COMPETES_WITH", "competes" ∷ "rival" ∷ "competitor" ∷ [])
    ∷ ("REGULATES", "regulates" ∷ "sanctioned" ∷ "approved" ∷ [])
    ∷ ("AFFECTS", "affects" ∷ "impacts" ∷ "disrupted" ∷ [])
    ∷ []

-- `next((name for name, keywords in ... if any(keyword in lowered ...)), None)`
abbrev pub first_predicate : List (String × List String) → String → Option String
first_predicate [] lowered = none
first_predicate ((name, keywords) ∷ rest) lowered =
    if any_in keywords lowered then some name else first_predicate rest lowered

abbrev pub is_within : ℕ × ℕ → Mention → Bool
is_within (start, end) m = leb start m.evidence.start_offset && leb m.evidence.end_offset end

unfoldable pub mentions_within : ℕ × ℕ → List Mention → List Mention
mentions_within span [] = []
mentions_within span (m ∷ mentions) =
    if is_within span m then m ∷ mentions_within span mentions else mentions_within span mentions

abbrev pub append_relation : Option Relation → List Relation → List Relation
append_relation none relations = relations
append_relation (some r) relations = r ∷ relations

module _ (lang : Language) where
  open lang use {casefold, join_split, hex_digest, finditer}

  abbrev pub claim_of : String → String → ℕ × ℕ → Claim
  claim_of document_id text (start, end) =
      let ev = evidence lang document_id text start end in
      let proposition = join_split (slice text start end) in
      record {
        claim_id = "claim:" ++ prefix 24 ev.span_hash;
        proposition = proposition;
        stance = stance lang proposition;
        confidence = 78;
        evidence = ev;
      }

  unfoldable pub extract_claims : String → String → List Claim
  unfolding evidence stance
  extract_claims document_id text = map (claim_of document_id text) (finditer Pattern.claim text)

  abbrev pub relation_of : String → String → Evidence → Mention → Mention → Relation
  relation_of document_id predicate ev subject object_ = record {
    relationship_id =
        "relationship:"
        ++ prefix 24 (
            hex_digest (
              subject.mention_id
              ++ (":" ++ (predicate ++ (":" ++ (object_.mention_id ++ (":" ++ ev.span_hash)))))));
    subject_mention_id = subject.mention_id;
    predicate = predicate;
    object_mention_id = object_.mention_id;
    confidence = 74;
    evidence = ev;
  }

  -- a sentence without two mentions or without a predicate is passed over
  abbrev pub sentence_relation : String → Evidence → Option String → List Mention → Option Relation
  sentence_relation document_id ev predicate [] = none
  sentence_relation document_id ev predicate (m ∷ []) = none
  sentence_relation document_id ev none (subject ∷ object_ ∷ more) = none
  sentence_relation document_id ev (some p) (subject ∷ object_ ∷ more) =
      some (relation_of document_id p ev subject object_)

  unfoldable pub relations_of : String → String → List Mention → List (ℕ × ℕ) → List Relation
  unfolding mentions_within evidence
  relations_of document_id text mentions [] = []
  relations_of document_id text mentions ((start, end) ∷ spans) =
      append_relation
        (sentence_relation document_id (evidence lang document_id text start end)
          (first_predicate relation_keywords (casefold (slice text start end)))
          (mentions_within (start, end) mentions))
        (relations_of document_id text mentions spans)

  unfoldable pub extract_relations : String → String → List Mention → List Relation
  unfolding relations_of
  extract_relations document_id text mentions =
      relations_of document_id text mentions (finditer Pattern.sentence text)
