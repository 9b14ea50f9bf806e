-- ===== src/Nlp/Tests.antt =====
-- A concrete document for services/nlp-pipeline.
use Prim.Native.String.{String}
use signalchord.Prelude.{
  ℕ, ◌≡◌, refl, sym, true, false, none, List, [], ◌∷◌, All, ok, ok_injective, length, sorted,
  insert_sorted,
}
use signalchord.Kafka.Tests.{codec, broker}
use signalchord.Kafka.Envelope.{prefix}
use signalchord.Kafka.Loop.{poll_loop}
use signalchord.Kafka.Commits.{commits}
use signalchord.Kafka.Delivery.{IsDelivered}
use signalchord.Graph.Json.{text, object, Fields}
use signalchord.Graph.Contract.{IsAccepted}
use signalchord.Events.Values.{dict}
use signalchord.Events.Envelope.{Keyed}
use signalchord.Events.Tests.{
  Value, no_strip, no_json, runtime, source_of, value_of, idle, sample_polls, visible,
}
use signalchord.Nlp.Document.{Pattern, Language, evidence}
use signalchord.Nlp.Mentions.{Candidate, overlaps_any, accept, candidates, extract_mentions}
use signalchord.Nlp.Mentions.Overlap.{IsDisjoint, accept-IsDisjoint, accept-IsCovered}
use signalchord.Nlp.Relations.{mentions_within, relations_of, extract_relations}
use signalchord.Nlp.Relations.Endpoints.{IsBetween, extract_relations-IsBetween}
use signalchord.Nlp.Extract.{Document, Extraction, extraction_of}
use signalchord.Nlp.Worker.Source.{Platform, load_text}
use signalchord.Nlp.Worker.Limits.{IsWithin, load_text-IsWithin}
use signalchord.Nlp.Worker.Mutations.{graph_base_mutations}
use signalchord.Nlp.Worker.Records.{relation_data}
use signalchord.Nlp.Worker.Contract.{graph_base_mutations-IsAccepted}
use signalchord.Nlp.Worker.Process.{handle_one_message}
use signalchord.Nlp.Worker.Lookups.{relation_data-extraction_of}
use signalchord.Nlp.Worker.Delivery.{nlp_loop-IsDelivered}

abbrev pub body : String
body = "Acme Inc acquired Beta Inc"

abbrev spans : Pattern → String → List (ℕ × ℕ)
spans Pattern.company s = (0, 8) ∷ (18, 26) ∷ []
spans Pattern.person s = (5, 13) ∷ []
spans Pattern.sentence s = (0, 26) ∷ []
spans Pattern.agency s = []
spans Pattern.organization s = []
spans Pattern.location s = []
spans Pattern.claim s = (0, 26) ∷ []

abbrev pub lang : Language
lang = record {
  casefold = λ s. s;
  strip = λ s. s;
  join_split = λ s. s;
  hex_digest = λ s. "ab";
  show = λ n. "n";
  finditer = spans;
}

abbrev pub platform : Platform (Unit {0})
platform = record {
  truthy = λ a. false;
  is_none = λ a. true;
  hundredths = λ n. tt;
  entity_relevance = λ n. tt;
  hash_embedding = λ s. tt;
  encode_utf8 = λ s. [];
  decode_utf8 = λ b. ok body;
  read_object = λ uri n. ok [];
}

abbrev pub sample : Document
sample = record { document_id = "d1"; text = body; language_hint = none }

abbrev pub result : Extraction (Unit {0})
result = extraction_of lang (λ s. tt) sample

abbrev payload : Value
payload = object (dict (("document_id", text "d1") ∷ ("text", text body) ∷ []))

abbrev source : Value
source = source_of payload

abbrev mutations : List (Keyed (Unit {0}))
mutations = value_of (graph_base_mutations (runtime source) platform source payload result)

five_mutations : graph_base_mutations (runtime source) platform source payload result ≡ ok mutations
unfolding graph_base_mutations
five_mutations = refl

-- the person overlaps the first company and is left out
two_mentions : length result.mentions ≡ 2
unfolding extract_mentions accept candidates sorted insert_sorted evidence
two_mentions = refl

one_relation : length result.relations ≡ 1
unfolding extract_mentions accept candidates sorted insert_sorted evidence extract_relations
    relations_of mentions_within prefix
one_relation = refl

abbrev span_at : ℕ → ℕ → Candidate
span_at start end = record {
  start = start;
  end = end;
  entity_type = "Company";
  value = "";
  confidence = 94;
}

abbrev three_spans : List Candidate
three_spans = span_at 0 8 ∷ span_at 5 13 ∷ span_at 8 12 ∷ []

accept-IsDisjoint_example : IsDisjoint (accept [] three_spans)
accept-IsDisjoint_example = accept-IsDisjoint [] three_spans

accept-IsCovered_example : All (λ c. overlaps_any c (accept [] three_spans) ≡ true) three_spans
accept-IsCovered_example = accept-IsCovered [] three_spans (refl, (refl, (refl, tt)))

extract_relations-IsBetween_example :
    All (IsBetween result.mentions) (extract_relations lang "d1" body result.mentions)
extract_relations-IsBetween_example = extract_relations-IsBetween lang "d1" body result.mentions

relation_data-extraction_of_example :
    All
      (λ r.
        (d : Fields (Unit {0})) × (relation_data (runtime source) platform (text "d1") result r
          ≡ ok d))
      result.relations
relation_data-extraction_of_example =
    relation_data-extraction_of (runtime source) platform lang sample (text "d1")

abbrev stored_payload : Value
stored_payload = object (dict (("clean_text_object_uri", text "s3://texts/d1") ∷ []))

load_text-IsWithin_example : IsWithin (runtime source) platform body
unfolding load_text
load_text-IsWithin_example = load_text-IsWithin (runtime source) platform stored_payload body refl

graph_base_mutations-IsAccepted_example : All (λ k. IsAccepted no_strip no_json k.1) mutations
graph_base_mutations-IsAccepted_example =
    graph_base_mutations-IsAccepted (runtime source) platform no_strip no_json visible source
      payload result mutations (λ v e. ("d1", sym (ok_injective _ _ e), refl))
      (λ v e. ("source:unknown", sym (ok_injective _ _ e), refl)) five_mutations

nlp_loop-IsDelivered_example :
    let r =
      poll_loop
        (handle_one_message (runtime source) platform broker lang codec)
        sample_polls
        idle in
    IsDelivered [] sample_polls r.0 (commits r.1.log)
nlp_loop-IsDelivered_example =
    nlp_loop-IsDelivered (runtime source) platform broker lang codec sample_polls idle
