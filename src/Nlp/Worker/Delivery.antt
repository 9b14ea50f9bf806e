-- ===== src/Nlp/Worker/Delivery.antt =====
-- The poll loop of services/nlp-pipeline/worker.py.
use Prim.Native.String.{String}
use signalchord.Prelude.{refl, List, [], ◌∷◌}
use signalchord.Kafka.World.{Message, Broker, World, Action, ◌>>=◌}
use signalchord.Kafka.Envelope.{Codec}
use signalchord.Kafka.Loop.{Poll, poll_loop}
use signalchord.Kafka.Commits.{commits, IsQuiet, bind-IsQuiet}
use signalchord.Kafka.Delivery.{IsDelivered, poll_loop-handle_message}
use signalchord.Graph.Json.{Json, text, Fields}
use signalchord.Events.Values.{Runtime, item}
use signalchord.Events.Envelope.{Keyed, graph_topic}
use signalchord.Events.Quiet.{lift_bind-IsQuiet, publish-IsQuiet, flush_all-IsQuiet}
use signalchord.Claims.Worker.Process.{plain_handler}
use signalchord.Nlp.Document.{Mention, Claim, Relation, Language}
use signalchord.Nlp.Extract.{Extraction}
use signalchord.Nlp.Worker.Source.{Platform, envelope, load_text}
use signalchord.Nlp.Worker.Mutations.{get_or_null, graph_base_mutations}
use signalchord.Nlp.Worker.Inputs.{Origin, origin_of, read_payload}
use signalchord.Nlp.Worker.Records.{
  mention_data, claim_data, relation_data, policy_inputs, completed,
}
use signalchord.Nlp.Worker.Process.{
  announce, announce_mutations, announce_mentions, announce_claims, announce_relations,
  announce_end, announce_all, publish_result, process, handle_one_message, dlq_topic,
}

module _ {A V C : Type 0} (rt : Runtime A V) (pf : Platform A) (broker : Broker V) where
  announce-IsQuiet :
      (o : Origin A) (topic : String) (key id : Json A) (payload : Fields A) (stage : String)
      → IsQuiet (announce {C = C} rt pf broker o topic key id payload stage)
  unfolding announce
  announce-IsQuiet o topic key id payload stage = publish-IsQuiet rt broker topic key (
      envelope rt pf topic o.tenant_id o.correlation_id o.causation_id id payload stage
        o.occurred_at)

  -- one event, and then what is quiet
  then-IsQuiet :
      (o : Origin A) (topic : String) (key id : Json A) (payload : Fields A) (stage : String)
      (rest : Action V C (Unit {0}))
      → IsQuiet rest
      → IsQuiet (announce rt pf broker o topic key id payload stage >>= (λ _. rest))
  then-IsQuiet o topic key id payload stage rest h =
      bind-IsQuiet {B = Unit {0}} (announce rt pf broker o topic key id payload stage) (λ _. rest)
        (announce-IsQuiet o topic key id payload stage) (λ _. h)

  announce_mutations-IsQuiet :
      (o : Origin A) (mutations : List (Keyed A))
      → IsQuiet (announce_mutations {C = C} rt pf broker o mutations)
  unfolding announce_mutations
  announce_mutations-IsQuiet o [] = λ w. refl
  announce_mutations-IsQuiet o ((key, mutation) ∷ mutations) =
      then-IsQuiet o graph_topic key key mutation "graph-mutation-build" _
        (announce_mutations-IsQuiet o mutations)

  module _ (document_id : Json A) (result : Extraction A) where
    announce_mentions-IsQuiet :
        (o : Origin A) (mentions : List Mention)
        → IsQuiet (announce_mentions {C = C} rt pf broker document_id result o mentions)
    unfolding announce_mentions
    announce_mentions-IsQuiet o [] = λ w. refl
    announce_mentions-IsQuiet o (m ∷ mentions) =
        then-IsQuiet o "entity.mention-extracted.v1" document_id (text m.mention_id)
          (mention_data rt pf document_id result m) "entity-extraction" _
          (announce_mentions-IsQuiet o mentions)

    announce_claims-IsQuiet :
        (o : Origin A) (claims : List Claim)
        → IsQuiet (announce_claims {C = C} rt pf broker document_id result o claims)
    unfolding announce_claims
    announce_claims-IsQuiet o [] = λ w. refl
    announce_claims-IsQuiet o (c ∷ claims) =
        then-IsQuiet o "claim.extracted.v1" (text c.claim_id) (text c.claim_id)
          (claim_data rt pf document_id result c) "claim-extraction" _
          (announce_claims-IsQuiet o claims)

    announce_relations-IsQuiet :
        (o : Origin A) (relations : List Relation)
        → IsQuiet (announce_relations {C = C} rt pf broker document_id result o relations)
    unfolding announce_relations
    announce_relations-IsQuiet o [] = λ w. refl
    announce_relations-IsQuiet o (r ∷ relations) =
        lift_bind-IsQuiet {D = Unit {0}} (relation_data rt pf document_id result r) _ (λ data_of.
          then-IsQuiet o "relationship.extracted.v1" (text r.relationship_id)
            (text r.relationship_id) data_of "relation-extraction" _
            (announce_relations-IsQuiet o relations))

    announce_end-IsQuiet :
        (lang : Language) (o : Origin A) (payload : Json A)
        → IsQuiet (announce_end {C = C} rt pf broker document_id result lang o payload)
    unfolding announce_end
    announce_end-IsQuiet lang o payload =
        lift_bind-IsQuiet {D = Unit {0}} (get_or_null rt pf "title" payload) _ (λ title.
          then-IsQuiet o "alert.policy-evaluation-requested.v1" document_id document_id
            (policy_inputs rt pf document_id result lang title) "policy-request" _
            (then-IsQuiet o "document.nlp-completed.v1" document_id document_id
              (completed rt pf document_id result) "nlp-completed" _ (flush_all-IsQuiet rt broker)))

    announce_all-IsQuiet :
        (lang : Language) (o : Origin A) (payload : Json A) (mutations : List (Keyed A))
        → IsQuiet (announce_all {C = C} rt pf broker document_id result lang o payload mutations)
    unfolding announce_all
    announce_all-IsQuiet lang o payload mutations =
        bind-IsQuiet {B = Unit {0}} (announce_mutations rt pf broker o mutations) _
          (announce_mutations-IsQuiet o mutations)
          (λ _.
            bind-IsQuiet {B = Unit {0}}
              (announce_mentions rt pf broker document_id result o result.mentions) _
              (announce_mentions-IsQuiet o result.mentions)
              (λ _.
                bind-IsQuiet {B = Unit {0}}
                  (announce_claims rt pf broker document_id result o result.claims) _
                  (announce_claims-IsQuiet o result.claims)
                  (λ _.
                    bind-IsQuiet {B = Unit {0}}
                      (announce_relations rt pf broker document_id result o result.relations) _
                      (announce_relations-IsQuiet o result.relations)
                      (λ _. announce_end-IsQuiet lang o payload))))

  module _ (lang : Language) where
    publish_result-IsQuiet :
        (source payload : Json A) (result : Extraction A)
        → IsQuiet (publish_result {C = C} rt pf broker lang source payload result)
    unfolding publish_result
    publish_result-IsQuiet source payload result =
        lift_bind-IsQuiet {D = Unit {0}} (origin_of rt pf source) _ (λ o.
          lift_bind-IsQuiet {D = Unit {0}} (graph_base_mutations rt pf source payload result) _
            (λ mutations.
              lift_bind-IsQuiet {D = Unit {0}} (item "document_id" payload) _
                (λ document_id. announce_all-IsQuiet document_id result lang o payload mutations)))

    process-IsQuiet : (message : Message) → IsQuiet (process {C = C} rt pf broker lang message)
    unfolding process
    process-IsQuiet message = lift_bind-IsQuiet {D = Unit {0}} (rt.loads message.value) _ (λ source.
        lift_bind-IsQuiet {D = Unit {0}} (item "payload" source) _ (λ payload.
          lift_bind-IsQuiet {D = Unit {0}} (load_text rt pf payload) _ (λ body.
            lift_bind-IsQuiet {D = Unit {0}} (read_payload rt pf lang payload body) _
              (λ result. publish_result-IsQuiet source payload result))))

    -- The loop of the NLP worker loses no message: it commits every message received, in order, or
    -- exactly those before the answer of the consumer at which it ends by an exception.
    pub nlp_loop-IsDelivered :
        (codec : Codec) (ps : List Poll) (w : World V C)
        → let r = poll_loop (handle_one_message rt pf broker lang codec) ps w in
          IsDelivered (commits w.log) ps r.0 (commits r.1.log)
    unfolding handle_one_message
    nlp_loop-IsDelivered codec =
        poll_loop-handle_message codec broker rt.now (plain_handler rt "nlp-pipeline" dlq_topic)
          (process rt pf broker lang) process-IsQuiet
