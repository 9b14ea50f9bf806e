-- ===== src/Claims/Tests.antt =====
-- A concrete claim for services/claim-intelligence.
use Prim.Native.Char.{Char}
use Prim.Native.String.{String}
use signalchord.Prelude.{◌≡◌, refl, sym, subst, Bool, List, [], ◌∷◌, All, ok, ok_injective, ◌=ˢ◌}
use signalchord.Kafka.Tests.{codec, broker}
use signalchord.Kafka.Loop.{poll_loop}
use signalchord.Kafka.Commits.{commits}
use signalchord.Kafka.Delivery.{IsDelivered}
use signalchord.Graph.Json.{text, object, other}
use signalchord.Graph.Contract.{IsAccepted}
use signalchord.Events.Values.{dict}
use signalchord.Events.Envelope.{Keyed}
use signalchord.Events.Tests.{
  Value, no_strip, no_json, runtime, source_of, evidence, value_of, idle, sample_polls, visible,
}
use signalchord.Claims.Cluster.{
  cluster_claim, normalize_claim, tokens_from, blank_out, squeeze, lstrip, rstrip,
}
use signalchord.Claims.Worker.Mutations.{
  upsert_claim, upsert_evidence, mutations_of, graph_mutations,
}
use signalchord.Claims.Worker.Contract.{HasId, graph_mutations-IsAccepted}
use signalchord.Claims.Worker.Process.{handle_one_message}
use signalchord.Claims.Worker.Delivery.{claim_loop-IsDelivered}

abbrev claim : Value
claim = object (
    dict (
      ("claim_id", text "claim:1")
      ∷ ("document_id", text "d1")
      ∷ ("proposition", text "Acme denied it")
      ∷ ("confidence", other tt)
      ∷ ("evidence", evidence)
      ∷ []))

abbrev source : Value
source = source_of claim

abbrev is_space : Char → Bool
is_space c = String.◌∷◌ c String.[] =ˢ " "

abbrev mutations : List (Keyed (Unit {0}))
mutations = value_of (graph_mutations (runtime source) source claim "claim-cluster:ab" "acme")

four_mutations :
    graph_mutations (runtime source) source claim "claim-cluster:ab" "acme" ≡ ok mutations
unfolding graph_mutations mutations_of upsert_claim upsert_evidence
four_mutations = refl

stance_of_denial :
    (cluster_claim (λ s. "acme denied it") (λ s. "ab") is_space "Acme denied it").stance
    ≡ "negative"
unfolding cluster_claim normalize_claim tokens_from blank_out squeeze lstrip rstrip
stance_of_denial = refl

graph_mutations-IsAccepted_example : All (λ k. IsAccepted no_strip no_json k.1) mutations
graph_mutations-IsAccepted_example =
    graph_mutations-IsAccepted (runtime source) no_strip no_json visible source claim
      "claim-cluster:ab" "acme" mutations (λ v e. ("claim:1", sym (ok_injective _ _ e), refl))
      (λ x e.
        subst (HasId (runtime source) no_strip no_json visible "evidence_id") (ok_injective _ _ e)
          (λ v f. ("ev:d1:0:4", sym (ok_injective _ _ f), refl)))
      four_mutations

claim_loop-IsDelivered_example :
    let r =
      poll_loop (handle_one_message (runtime source) is_space broker codec) sample_polls idle in
    IsDelivered [] sample_polls r.0 (commits r.1.log)
claim_loop-IsDelivered_example =
    claim_loop-IsDelivered (runtime source) is_space broker codec sample_polls idle
