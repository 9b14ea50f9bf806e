-- ===== src/Claims/Worker/Process.antt =====
-- services/claim-intelligence/worker.py: handle_one_message.
use Prim.Native.Char.{Char}
use Prim.Native.String.{String, ◌++◌}
use signalchord.Prelude.{Bool, List, [], ◌∷◌, none, some}
use signalchord.Kafka.World.{Message, Broker, Action, ◌>>=◌, ◌>>◌}
use signalchord.Kafka.Envelope.{Codec}
use signalchord.Kafka.Poison.{Handler, handle_message}
use signalchord.Graph.Json.{Json, text, other}
use signalchord.Events.Values.{Runtime, item, merge_item, as_text}
use signalchord.Events.Envelope.{envelope}
use signalchord.Events.Publish.{lift, publish, publish_mutations, flush_all}
use signalchord.Claims.Cluster.{ClusteredClaim, cluster_claim}
use signalchord.Claims.Worker.Mutations.{graph_mutations}

abbrev pub input_topic : String
input_topic = "claim.extracted.v1"

abbrev pub dlq_topic : String
dlq_topic = input_topic ++ ".dlq"

-- what a worker without its own failed event or DLQ key hands to handle_message
abbrev pub plain_handler : {A V C : Type 0} → Runtime A V → String → String → Handler V C (Json A)
plain_handler rt name topic = record {
  origin = name;
  dlq_topic = topic;
  failed_event = none;
  dlq_key = none;
  of_text = λ o. elim o [ none ↦ other rt.null | some s ↦ text s ];
  body = rt.dumps_envelope;
}

abbrev pub origin : String
origin = "claim-intelligence"

abbrev pub version : String
version = ":claim-intelligence:1.0.0"

abbrev pub clustered_entries : {A : Type 0} → ClusteredClaim → List (String × Json A)
clustered_entries clustered =
    ("cluster_id", text clustered.cluster_id)
    ∷ ("normalized_proposition", text clustered.normalized_proposition)
    ∷ ("stance", text clustered.stance)
    ∷ []

module _ {A V C : Type 0} (rt : Runtime A V) (is_space : Char → Bool) (broker : Broker V) where
  unfoldable pub process_claim : Json A → Json A → ClusteredClaim → Action V C (Unit {0})
  unfolding publish publish_mutations graph_mutations
  process_claim source payload clustered = do
    clustered_payload ← lift (merge_item payload (clustered_entries clustered))
    event ← lift (
        envelope rt origin version source "claim.clustered.v1" (text clustered.cluster_id)
          clustered_payload "claim-clustering")
    publish rt broker "claim.clustered.v1" (text clustered.cluster_id) event
    mutations ←
        lift
          (graph_mutations rt source payload clustered.cluster_id clustered.normalized_proposition)
    publish_mutations rt broker origin version source mutations
    flush_all rt broker

  unfoldable pub process : Message → Action V C (Unit {0})
  unfolding process_claim cluster_claim
  process message = do
    source ← lift (rt.loads message.value)
    payload ← lift (item "payload" source)
    value ← lift (item "proposition" payload)
    proposition ← lift (as_text value)
    process_claim source payload (cluster_claim rt.casefold rt.hex_digest is_space proposition)

  unfoldable pub handle_one_message : Codec → Message → Action V C (Unit {0})
  unfolding handle_message process
  handle_one_message codec message =
      handle_message codec broker rt.now (plain_handler rt origin dlq_topic) message
        (process message)
