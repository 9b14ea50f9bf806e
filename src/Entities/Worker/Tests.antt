-- ===== src/Entities/Worker/Tests.antt =====
-- A concrete mention and a concrete relation for services/entity-resolution/worker.py.
use signalchord.Prelude.{
  ◌≡◌, refl, sym, ap, subst, ◌∙◌, true, false, some, List, [], ◌∷◌, All, ok, ok_injective,
}
use signalchord.Kafka.Envelope.{prefix}
use signalchord.Kafka.Tests.{codec, broker, sample}
use signalchord.Kafka.Commits.{commits, acked}
use signalchord.Graph.Json.{text, object, other, Fields}
use signalchord.Graph.Contract.{IsAccepted}
use signalchord.Events.Values.{dict}
use signalchord.Events.Envelope.{Keyed}
use signalchord.Events.Tests.{
  Value, no_strip, no_json, runtime, source_of, evidence, value_of, idle, visible,
}
use signalchord.Entities.Slug.{slug, squash, strip_left, strip_right}
use signalchord.Entities.Resolve.{Resolved, resolve, resolve_mention}
use signalchord.Entities.Worker.Mutations.{
  Resolver, resolve_fields, common_properties, upsert_mention_evidence, graph_events,
}
use signalchord.Entities.Worker.Relations.{relation_mutation, relation_graph_events}
use signalchord.Entities.Worker.Process.{handle_one_message}
use signalchord.Entities.Worker.Contract.{
  IsWritable, graph_events-IsAcceptedAll, relation_graph_events-IsAcceptedAll,
}
use signalchord.Entities.Worker.Delivery.{handle_one_message-commits}

abbrev mention : Value
mention = object (
    dict (
      ("mention_id", text "m1")
      ∷ ("document_id", text "d1")
      ∷ ("text", text "northstar")
      ∷ ("entity_type", text "Organization")
      ∷ ("confidence", other tt)
      ∷ ("evidence", evidence)
      ∷ []))

abbrev relation : Value
relation = object (
    dict (
      ("relationship_id", text "relationship:1")
      ∷ ("document_id", text "d1")
      ∷ ("predicate", text "ACQUIRED")
      ∷ ("confidence", other tt)
      ∷ ("evidence", evidence)
      ∷ ("subject", mention)
      ∷ ("object", mention)
      ∷ []))

abbrev source : Value
source = source_of mention

abbrev pub resolver : Resolver (Unit {0}) (Unit {0})
resolver = record {
  join_split = λ s. s;
  zero_float = tt;
  float_of = λ v. ok tt;
  hundredths = λ n. tt;
  float_le = λ x y. true;
  of_float = λ x. x;
  of_bool = λ b. tt;
  of_candidates = λ cs. tt;
  is_hashable = λ a. true;
}

abbrev pub resolved : Resolved Value (Unit {0})
resolved = record {
  mention_id = "m1";
  document_id = text "d1";
  entity_id = "organization:northstar-labs";
  entity_type = text "Organization";
  display_name = "northstar";
  confidence = tt;
  status = "model_verified";
  requires_review = false;
  alternatives = [];
  evidence = evidence;
  extraction_model = some (other tt);
  extraction_version = some (other tt);
}

abbrev events : List (Keyed (Unit {0}))
events = value_of (graph_events (runtime source) resolver source resolved)

four_events : graph_events (runtime source) resolver source resolved ≡ ok events
unfolding graph_events common_properties upsert_mention_evidence
four_events = refl

writable : IsWritable (runtime source) resolver no_strip no_json visible resolved
writable = (
  refl,
  ("Organization", _, refl, refl, refl),
  (λ v e. ("ev:d1:0:4", sym (ok_injective _ _ e), refl)),
)

graph_events-IsAcceptedAll_example : All (λ k. IsAccepted no_strip no_json k.1) events
graph_events-IsAcceptedAll_example =
    graph_events-IsAcceptedAll (runtime source) resolver no_strip no_json visible source resolved
      events writable four_events

handle_one_message-commits_example :
    let r = handle_one_message (runtime source) resolver broker codec sample idle in
    commits r.1.log ≡ acked sample r.0
handle_one_message-commits_example =
    handle_one_message-commits (runtime source) resolver broker codec sample idle

abbrev part : Fields (Unit {0})
part = dict (
    ("mention_id", text "m1")
    ∷ ("document_id", text "d1")
    ∷ ("text", text "northstar")
    ∷ ("entity_type", text "Organization")
    ∷ ("confidence", other tt)
    ∷ ("evidence", evidence)
    ∷ ("extraction_model", other tt)
    ∷ ("extraction_version", other tt)
    ∷ [])

abbrev named : Resolved Value (Unit {0})
named = record {
  mention_id = "m1";
  document_id = text "d1";
  entity_id = "Organization:northstar";
  entity_type = text "Organization";
  display_name = "northstar";
  confidence = tt;
  status = "model_verified";
  requires_review = false;
  alternatives = [];
  evidence = evidence;
  extraction_model = some (other tt);
  extraction_version = some (other tt);
}

resolved_sample : resolve_fields (runtime source) resolver part ≡ ok named
unfolding resolve_fields resolve_mention resolve slug squash strip_left strip_right prefix
resolved_sample = refl

sample-IsWritable :
    (d : Fields (Unit {0})) (r : Resolved Value (Unit {0}))
    → part ≡ d
    → resolve_fields (runtime source) resolver d ≡ ok r
    → IsWritable (runtime source) resolver no_strip no_json visible r
sample-IsWritable d r e q =
    subst (IsWritable (runtime source) resolver no_strip no_json visible)
      (ok_injective _ _ (sym resolved_sample ∙ ap (resolve_fields (runtime source) resolver) e ∙ q))
      (
        refl,
        ("Organization", _, refl, refl, refl),
        (λ v f. ("ev:d1:0:4", sym (ok_injective _ _ f), refl)),
      )

abbrev relation_events : List (Keyed (Unit {0}))
relation_events = value_of (relation_graph_events (runtime source) resolver source relation)

nine_events : relation_graph_events (runtime source) resolver source relation ≡ ok relation_events
unfolding relation_graph_events resolve_fields resolve_mention resolve slug squash strip_left
    strip_right prefix graph_events common_properties upsert_mention_evidence relation_mutation
nine_events = refl

relation_graph_events-IsAcceptedAll_example :
    All (λ k. IsAccepted no_strip no_json k.1) relation_events
relation_graph_events-IsAcceptedAll_example =
    relation_graph_events-IsAcceptedAll (runtime source) resolver no_strip no_json visible source
      relation relation_events (λ v e. ("relationship:1", sym (ok_injective _ _ e), refl))
      (λ d r p q. sample-IsWritable d r (ok_injective _ _ p) q)
      (λ d r p q. sample-IsWritable d r (ok_injective _ _ p) q) nine_events
