-- ===== src/Search/Tests.antt =====
-- Concrete events for services/search-projector/worker.py.
use signalchord.Prelude.{ℕ, ◌≡◌, refl, none, some, List, [], ◌∷◌, ok, length}
use signalchord.Kafka.World.{World}
use signalchord.Kafka.Tests.{codec, broker}
use signalchord.Kafka.Loop.{poll_loop}
use signalchord.Kafka.Poison.{handle_message, conclude}
use signalchord.Graph.Json.{text, object, other, Fields}
use signalchord.Events.Values.{Runtime, item, dict, merge}
use signalchord.Events.Envelope.{envelope, envelope_fields}
use signalchord.Events.Tests.{Value, runtime, source_of, sample_polls}
use signalchord.Entities.Worker.Tests.{resolver, resolved}
use signalchord.Claims.Cluster.{ClusteredClaim}
use signalchord.Nlp.Document.{Claim}
use signalchord.Nlp.Tests.{platform, result}
use signalchord.Nlp.Worker.Records.{claim_data}
use signalchord.Claims.Worker.Process.{clustered_entries}
use signalchord.Entities.Worker.Mutations.{resolved_entries}
use signalchord.Search.Project.{
  Storage, Request, put_entry, entities, claims, entry_id, request_of, takedown_request,
}
use signalchord.Search.Process.{Client, handle_one_message, process, project}
use signalchord.Search.Scope.{Holds, IsScopedIfAny, request_of-IsScopedTo}
use signalchord.Search.Writes.{IsClean, search_loop-IsClean}
use signalchord.Search.Feeds.{request_of-resolved, request_of-clustered}

abbrev takedown : Value
takedown = object (
    dict (
      ("tenant_id", text "acme")
      ∷ ("event_type", text "source.takedown.requested.v1")
      ∷ ("payload", object (dict (("source_id", text "s1") ∷ [])))
      ∷ []))

abbrev rt : Runtime (Unit {0}) ℕ
rt = runtime takedown

abbrev storage : Storage (Unit {0})
storage = record { read_object = λ uri n. ok []; decode_utf8 = λ b. ok "text" }

abbrev client : Client (Unit {0})
client = record { request_raises = λ done r. none }

abbrev idle : World ℕ (List (Request (Unit {0})))
idle = record { log = []; cell = [] }

request_of-IsScopedTo_example :
    Holds (IsScopedIfAny rt storage (text "acme")) (request_of rt storage takedown)
request_of-IsScopedTo_example = request_of-IsScopedTo rt storage takedown (text "acme") refl

search_loop-IsClean_example :
    IsClean rt storage client broker
      (poll_loop (handle_one_message rt storage client broker codec) sample_polls idle).1.cell
search_loop-IsClean_example =
    search_loop-IsClean rt storage client broker codec sample_polls idle tt

two_deletions :
    length (poll_loop (handle_one_message rt storage client broker codec) sample_polls idle).1.cell
    ≡ 2
unfolding poll_loop handle_one_message handle_message conclude process project request_of
    takedown_request
two_deletions = refl

request_of-resolved_example :
    (t : Value) × (body : Fields (Unit {0})) × (item "tenant_id" (source_of (other tt)) ≡ ok t)
    × (request_of rt storage (
          object (
            envelope_fields rt "entity-resolution" ":resolver:1.0.0"
              (text "acme")
              (text "now")
              (text "r1")
              (text "e1")
              "entity.resolved.v1"
              (text resolved.entity_id)
              (dict (resolved_entries rt resolver resolved))
              "entity-resolution"))
        ≡ ok (some (put_entry entities (entry_id rt storage t (text resolved.entity_id)) body)))
unfolding envelope
request_of-resolved_example =
    request_of-resolved rt storage resolver (source_of (other tt)) resolved _ refl

abbrev claim : Claim
claim = record {
  claim_id = "claim:ab";
  proposition = "Acme denied it";
  stance = "negative";
  confidence = 78;
  evidence = record {
    evidence_id = "ev:d1:0:4";
    document_id = "d1";
    start_offset = 0;
    end_offset = 4;
    span_hash = "ab";
  };
}

abbrev clustered : ClusteredClaim
clustered = record {
  cluster_id = "claim-cluster:ab";
  normalized_proposition = "acme denied it";
  stance = "negative";
}

request_of-clustered_example :
    (t : Value) × (body : Fields (Unit {0})) × (item "tenant_id" (source_of (other tt)) ≡ ok t)
    × (request_of rt storage (
          object (
            envelope_fields rt "claim-intelligence" ":claim-intelligence:1.0.0"
              (text "acme")
              (text "now")
              (text "r1")
              (text "e1")
              "claim.clustered.v1"
              (text clustered.cluster_id)
              (merge
                (claim_data rt platform (text "d1") result claim)
                (clustered_entries clustered))
              "claim-clustering"))
        ≡ ok (some (put_entry claims (entry_id rt storage t (text claim.claim_id)) body)))
unfolding envelope
request_of-clustered_example =
    request_of-clustered rt storage platform (text "d1") result claim (source_of (other tt))
      clustered _ refl
