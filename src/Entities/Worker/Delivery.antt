-- ===== src/Entities/Worker/Delivery.antt =====
-- The poll loop of services/entity-resolution/worker.py.
use signalchord.Prelude.{Bool, true, false, ◌≡◌, List, ◌++◌, if◌then◌else◌}
use signalchord.Kafka.World.{Message, Broker, World, Action}
use signalchord.Kafka.Envelope.{Codec}
use signalchord.Kafka.Commits.{commits, acked, IsQuiet, bind-IsQuiet, handle_message-commits}
use signalchord.Graph.Json.{Json, text}
use signalchord.Events.Values.{Runtime, item, dict}
use signalchord.Events.Envelope.{Keyed, envelope}
use signalchord.Events.Publish.{lift, publish_mutations}
use signalchord.Events.Quiet.{
  lift-IsQuiet, lift_bind-IsQuiet, publish-IsQuiet, publish_mutations-IsQuiet, flush_all-IsQuiet,
}
use signalchord.Claims.Worker.Process.{plain_handler}
use signalchord.Entities.Resolve.{Resolved}
use signalchord.Entities.Worker.Mutations.{Resolver, resolve_fields, resolved_entries, graph_events}
use signalchord.Entities.Worker.Relations.{relation_graph_events}
use signalchord.Entities.Worker.Process.{
  origin, version, is_text, fields_of, publish_resolved, resolve_one, process, dlq_of,
  handle_one_message,
}

module _ {A V F C : Type 0} (rt : Runtime A V) (rs : Resolver A F) (broker : Broker V) where
  publish_resolved-IsQuiet :
      (source : Json A) (r : Resolved (Json A) F)
      → IsQuiet (publish_resolved {C = C} rt rs broker source r)
  unfolding publish_resolved
  publish_resolved-IsQuiet source r =
      lift_bind-IsQuiet {D = Unit {0}}
        (envelope rt origin version source "entity.resolved.v1" (text r.entity_id)
          (dict (resolved_entries rt rs r)) "entity-resolution")
        _ (publish-IsQuiet rt broker "entity.resolved.v1" (text r.entity_id))

  resolve_one-IsQuiet :
      (source payload : Json A) → IsQuiet (resolve_one {C = C} rt rs broker source payload)
  unfolding resolve_one
  resolve_one-IsQuiet source payload =
      lift_bind-IsQuiet {D = List (Keyed A)} (fields_of payload) _ (λ fields.
        lift_bind-IsQuiet {D = List (Keyed A)} (resolve_fields rt rs fields) _ (λ r.
          bind-IsQuiet {B = List (Keyed A)} (publish_resolved rt rs broker source r) _
            (publish_resolved-IsQuiet source r) (λ _. lift-IsQuiet (graph_events rt rs source r))))

  if-IsQuiet :
      {B : Type 0} (b : Bool) (m n : Action V C B)
      → IsQuiet m
      → IsQuiet n
      → IsQuiet (if b then m else n)
  if-IsQuiet true m n h k = h
  if-IsQuiet false m n h k = k

  process-IsQuiet : (message : Message) → IsQuiet (process {C = C} rt rs broker message)
  unfolding process
  process-IsQuiet message = lift_bind-IsQuiet {D = Unit {0}} (rt.loads message.value) _ (λ source.
      lift_bind-IsQuiet {D = Unit {0}} (item "event_type" source) _ (λ event_type.
        lift_bind-IsQuiet {D = Unit {0}} (item "payload" source) _ (λ payload.
          bind-IsQuiet {B = Unit {0}}
            (if is_text "entity.mention-extracted.v1" event_type
              then resolve_one rt rs broker source payload
              else lift (relation_graph_events rt rs source payload))
            _
            (if-IsQuiet (is_text "entity.mention-extracted.v1" event_type) _ _
              (resolve_one-IsQuiet source payload)
              (lift-IsQuiet (relation_graph_events rt rs source payload)))
            (λ mutations.
              bind-IsQuiet {B = Unit {0}}
                (publish_mutations rt broker origin version source mutations) _
                (publish_mutations-IsQuiet rt broker origin version source mutations)
                (λ _. flush_all-IsQuiet rt broker)))))

  -- One message of the entity worker: its offset is committed once if the handling returns, and not
  -- at all if it raises, for both of its topics.
  pub handle_one_message-commits :
      (codec : Codec) (message : Message) (w : World V C)
      → let r = handle_one_message rt rs broker codec message w in
        commits r.1.log ≡ commits w.log ++ acked message r.0
  unfolding handle_one_message
  handle_one_message-commits codec message =
      handle_message-commits codec broker rt.now (plain_handler rt origin (dlq_of message.topic))
        message (process rt rs broker message) (process-IsQuiet message)
