-- ===== src/Nlp/Extract.antt =====
-- services/nlp-pipeline/app.py: the models Document and Extraction, classify_topics and extract.
use Prim.Native.String.{String}
use signalchord.Prelude.{
  ℕ, true, ◌+◌, ◌||◌, Option, none, some, List, [], ◌∷◌, Result, ok, err, ltb, ◌==◌, ◌=ˢ◌, str_ltb,
  sorted, if◌then◌else◌, ◌>>=◌,
}
use signalchord.Kafka.World.{Exn}
use signalchord.Nlp.Document.{Mention, Claim, Relation, Language, any_in}
use signalchord.Nlp.Mentions.{extract_mentions}
use signalchord.Nlp.Relations.{extract_claims, extract_relations}

pub record Document : Type 0 where
  pub document_id : String
  pub text : String
  pub language_hint : Option String

-- `embedding` is of the type of its values.
pub record Extraction (B : Type 0) : Type 0 where
  pub language : String
  pub extraction_model : String
  pub extraction_version : String
  pub embedding_model : String
  pub mentions : List Mention
  pub claims : List Claim
  pub relations : List Relation
  pub topics : List String
  pub embedding : B

-- pydantic's ValidationError, which is a ValueError
abbrev pub validation_error : Exn
validation_error = record { is_value_error = true; type_name = "ValidationError"; text = "" }

abbrev pub char_count : String → ℕ
char_count String.[] = 0
char_count (String.◌∷◌ c s) = char_count s + 1

-- `Document(...)` of values of the right types
unfoldable pub document : String → String → Option String → Result Exn Document
document document_id text language_hint =
    if (char_count text == 0) || ltb 2000000 (char_count text)
    then err validation_error
    else ok (record { document_id = document_id; text = text; language_hint = language_hint })

abbrev pub topic_keywords : List (String × List String)
topic_keywords =
    ("partnerships", "partnership" ∷ "partnered" ∷ "collaboration" ∷ "alliance" ∷ [])
    ∷ ("mergers-and-acquisitions", "acquired" ∷ "acquisition" ∷ "merger" ∷ "takeover" ∷ [])
    ∷ ("investment", "invested" ∷ "funding" ∷ "financing" ∷ "venture" ∷ [])
    ∷ ("regulation", "regulates" ∷ "regulation" ∷ "authority" ∷ "commission" ∷ [])
    ∷ ("technology", "technology" ∷ "software" ∷ "platform" ∷ "artificial intelligence" ∷ "ai" ∷ [])
    ∷ ("logistics", "logistics" ∷ "shipping" ∷ "supply chain" ∷ "warehouse" ∷ [])
    ∷ []

abbrev pub topics_in : List (String × List String) → String → List String
topics_in [] lowered = []
topics_in ((topic, keywords) ∷ rest) lowered =
    if any_in keywords lowered then topic ∷ topics_in rest lowered else topics_in rest lowered

-- `doc.language_hint or "en"`
abbrev pub language_of : Option String → String
language_of none = "en"
language_of (some hint) = if hint =ˢ "" then "en" else hint

module _ (lang : Language) where
  open lang use {casefold, join_split}

  unfoldable pub classify_topics : String → List String
  unfolding sorted
  classify_topics text = sorted str_ltb (topics_in topic_keywords (casefold text))

  module _ {B : Type 0} (hash_embedding : String → B) where
    -- the Extraction of a document whose text is normalized
    abbrev pub extraction_of : Document → Extraction B
    extraction_of doc =
        let mentions = extract_mentions lang doc.document_id doc.text in
        record {
          language = language_of doc.language_hint;
          extraction_model = "signalchord-rules";
          extraction_version = "1.0.0";
          embedding_model = "signalchord-hash-embedding-1";
          mentions = mentions;
          claims = extract_claims lang doc.document_id doc.text;
          relations = extract_relations lang doc.document_id doc.text mentions;
          topics = classify_topics doc.text;
          embedding = hash_embedding doc.text;
        }

    unfoldable pub extract : Document → Result Exn (Extraction B)
    unfolding document extract_mentions extract_claims extract_relations classify_topics
    extract doc = do
      normalized ← document doc.document_id (join_split doc.text) doc.language_hint
      ok (extraction_of normalized)
