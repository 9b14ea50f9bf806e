-- ===== src/Claims/Worker/Delivery.antt =====
-- The poll loop of services/claim-intelligence/worker.py.
use Prim.Native.Char.{Char}
use signalchord.Prelude.{Bool, List}
use signalchord.Kafka.World.{Message, Broker, World}
use signalchord.Kafka.Envelope.{Codec}
use signalchord.Kafka.Loop.{Poll, poll_loop}
use signalchord.Kafka.Commits.{commits, IsQuiet, bind-IsQuiet}
use signalchord.Kafka.Delivery.{IsDelivered, poll_loop-handle_message}
use signalchord.Graph.Json.{Json, text}
use signalchord.Events.Values.{Runtime, item, merge_item, as_text}
use signalchord.Events.Envelope.{envelope}
use signalchord.Events.Publish.{publish, publish_mutations}
use signalchord.Events.Quiet.{
  lift_bind-IsQuiet, publish-IsQuiet, publish_mutations-IsQuiet, flush_all-IsQuiet,
}
use signalchord.Claims.Cluster.{ClusteredClaim, cluster_claim}
use signalchord.Claims.Worker.Mutations.{graph_mutations}
use signalchord.Claims.Worker.Process.{
  origin, version, plain_handler, dlq_topic, clustered_entries, process_claim, process,
  handle_one_message,
}

module _ {A V C : Type 0} (rt : Runtime A V) (is_space : Char → Bool) (broker : Broker V) where
  process_claim-IsQuiet :
      (source payload : Json A) (clustered : ClusteredClaim)
      → IsQuiet (process_claim {C = C} rt is_space broker source payload clustered)
  unfolding process_claim
  process_claim-IsQuiet source payload clustered =
      lift_bind-IsQuiet {D = Unit {0}} (merge_item payload (clustered_entries clustered)) _
        (λ clustered_payload.
          lift_bind-IsQuiet {D = Unit {0}}
            (envelope rt origin version source "claim.clustered.v1" (text clustered.cluster_id)
              clustered_payload "claim-clustering")
            _
            (λ event.
              bind-IsQuiet {B = Unit {0}}
                (publish rt broker "claim.clustered.v1" (text clustered.cluster_id) event) _
                (publish-IsQuiet rt broker "claim.clustered.v1" (text clustered.cluster_id) event)
                (λ _.
                  lift_bind-IsQuiet {D = Unit {0}}
                    (graph_mutations rt source payload clustered.cluster_id
                      clustered.normalized_proposition)
                    _
                    (λ mutations.
                      bind-IsQuiet {B = Unit {0}}
                        (publish_mutations rt broker origin version source mutations) _
                        (publish_mutations-IsQuiet rt broker origin version source mutations)
                        (λ _. flush_all-IsQuiet rt broker)))))

  process-IsQuiet : (message : Message) → IsQuiet (process {C = C} rt is_space broker message)
  unfolding process
  process-IsQuiet message = lift_bind-IsQuiet {D = Unit {0}} (rt.loads message.value) _ (λ source.
      lift_bind-IsQuiet {D = Unit {0}} (item "payload" source) _ (λ payload.
        lift_bind-IsQuiet {D = Unit {0}} (item "proposition" payload) _ (λ value.
          lift_bind-IsQuiet {D = Unit {0}} (as_text value) _ (λ proposition.
            process_claim-IsQuiet source payload
              (cluster_claim rt.casefold rt.hex_digest is_space proposition)))))

  -- The loop of the claim worker loses no message: it commits every message received, in order, or
  -- exactly those before the answer of the consumer at which it ends by an exception.
  pub claim_loop-IsDelivered :
      (codec : Codec) (ps : List Poll) (w : World V C)
      → let r = poll_loop (handle_one_message rt is_space broker codec) ps w in
        IsDelivered (commits w.log) ps r.0 (commits r.1.log)
  unfolding handle_one_message
  claim_loop-IsDelivered codec =
      poll_loop-handle_message codec broker rt.now (plain_handler rt origin dlq_topic)
        (process rt is_space broker) process-IsQuiet
