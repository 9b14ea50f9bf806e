-- ===== src/Nlp/Worker/Process.antt =====
-- services/nlp-pipeline/worker.py: handle_one_message.
use Prim.Native.String.{String, ◌++◌}
use signalchord.Prelude.{List, [], ◌∷◌}
use signalchord.Kafka.World.{Message, Broker, Action, ◌>>=◌, ◌>>◌, pure}
use signalchord.Kafka.Envelope.{Codec}
use signalchord.Kafka.Poison.{handle_message}
use signalchord.Graph.Json.{Json, text, Fields}
use signalchord.Events.Values.{Runtime, item}
use signalchord.Events.Envelope.{Keyed, graph_topic}
use signalchord.Events.Publish.{lift, publish, flush_all}
use signalchord.Claims.Worker.Process.{plain_handler}
use signalchord.Nlp.Document.{Mention, Claim, Relation, Language}
use signalchord.Nlp.Extract.{Extraction}
use signalchord.Nlp.Worker.Inputs.{Origin, origin_of, read_payload}
use signalchord.Nlp.Worker.Source.{Platform, envelope, load_text}
use signalchord.Nlp.Worker.Mutations.{get_or_null, graph_base_mutations}
use signalchord.Nlp.Worker.Records.{
  mention_data, claim_data, relation_data, policy_inputs, completed,
}

abbrev pub input_topic : String
input_topic = "document.nlp-requested.v1"

abbrev pub dlq_topic : String
dlq_topic = input_topic ++ ".dlq"

module _ {A V C : Type 0} (rt : Runtime A V) (pf : Platform A) (broker : Broker V) where
  -- `publish(producer, topic, key, envelope(topic, ...))`, which all the events are published by
  unfoldable pub announce :
      Origin A → String → Json A → Json A → Fields A → String → Action V C (Unit {0})
  unfolding publish envelope
  announce o topic key id payload stage = publish rt broker topic key (
      envelope rt pf topic o.tenant_id o.correlation_id o.causation_id id payload stage
        o.occurred_at)

  unfoldable pub announce_mutations : Origin A → List (Keyed A) → Action V C (Unit {0})
  unfolding announce
  announce_mutations o [] = pure tt
  announce_mutations o ((key, mutation) ∷ mutations) = do
    announce o graph_topic key key mutation "graph-mutation-build"
    announce_mutations o mutations

  module _ (document_id : Json A) (result : Extraction A) where
    unfoldable pub announce_mentions : Origin A → List Mention → Action V C (Unit {0})
    unfolding announce
    announce_mentions o [] = pure tt
    announce_mentions o (m ∷ mentions) = do
      announce o "entity.mention-extracted.v1" document_id (text m.mention_id)
          (mention_data rt pf document_id result m) "entity-extraction"
      announce_mentions o mentions

    unfoldable pub announce_claims : Origin A → List Claim → Action V C (Unit {0})
    unfolding announce
    announce_claims o [] = pure tt
    announce_claims o (c ∷ claims) = do
      announce o "claim.extracted.v1" (text c.claim_id) (text c.claim_id)
          (claim_data rt pf document_id result c) "claim-extraction"
      announce_claims o claims

    unfoldable pub announce_relations : Origin A → List Relation → Action V C (Unit {0})
    unfolding announce relation_data
    announce_relations o [] = pure tt
    announce_relations o (r ∷ relations) = do
      data_of ← lift (relation_data rt pf document_id result r)
      announce o "relationship.extracted.v1" (text r.relationship_id) (text r.relationship_id)
          data_of "relation-extraction"
      announce_relations o relations

    -- the policy request and the completion
    unfoldable pub announce_end : Language → Origin A → Json A → Action V C (Unit {0})
    unfolding announce policy_inputs
    announce_end lang o payload = do
      title ← lift (get_or_null rt pf "title" payload)
      announce o "alert.policy-evaluation-requested.v1" document_id document_id
          (policy_inputs rt pf document_id result lang title) "policy-request"
      announce o "document.nlp-completed.v1" document_id document_id
          (completed rt pf document_id result) "nlp-completed"
      flush_all rt broker

    unfoldable pub announce_all :
        Language → Origin A → Json A → List (Keyed A) → Action V C (Unit {0})
    unfolding announce_mutations announce_mentions announce_claims announce_relations announce_end
    announce_all lang o payload mutations = do
      announce_mutations o mutations
      announce_mentions o result.mentions
      announce_claims o result.claims
      announce_relations o result.relations
      announce_end lang o payload

  module _ (lang : Language) where
    -- from the extraction on
    unfoldable pub publish_result : Json A → Json A → Extraction A → Action V C (Unit {0})
    unfolding origin_of graph_base_mutations announce_all
    publish_result source payload result = do
      o ← lift (origin_of rt pf source)
      mutations ← lift (graph_base_mutations rt pf source payload result)
      document_id ← lift (item "document_id" payload)
      announce_all document_id result lang o payload mutations

    unfoldable pub process : Message → Action V C (Unit {0})
    unfolding load_text read_payload publish_result
    process message = do
      source ← lift (rt.loads message.value)
      payload ← lift (item "payload" source)
      body ← lift (load_text rt pf payload)
      result ← lift (read_payload rt pf lang payload body)
      publish_result source payload result

    unfoldable pub handle_one_message : Codec → Message → Action V C (Unit {0})
    unfolding handle_message process
    handle_one_message codec message =
        handle_message codec broker rt.now (plain_handler rt "nlp-pipeline" dlq_topic) message
          (process message)
