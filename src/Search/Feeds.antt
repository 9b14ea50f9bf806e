-- ===== src/Search/Feeds.antt =====
-- What services/search-projector/worker.py makes of the events of
-- services/entity-resolution/worker.py and services/claim-intelligence/worker.py.
use Prim.Native.String.{String}
use signalchord.Prelude.{◌≡◌, refl, ap, ◌∙◌, sym, some, ok, ok_injective, bind-ok_inv}
use signalchord.Graph.Json.{Json, text, object, Fields}
use signalchord.Events.Values.{Runtime, item, get_item, dict, merge}
use signalchord.Events.Envelope.{envelope, envelope_fields}
use signalchord.Entities.Resolve.{Resolved}
use signalchord.Entities.Worker.Mutations.{Resolver, resolved_entries}
use signalchord.Entities.Worker.Process.{origin as entity_origin, version as entity_version}
use signalchord.Claims.Cluster.{ClusteredClaim}
use signalchord.Claims.Worker.Process.{
  clustered_entries, origin as claim_origin, version as claim_version,
}
use signalchord.Nlp.Document.{Claim}
use signalchord.Nlp.Extract.{Extraction}
use signalchord.Nlp.Worker.Source.{Platform}
use signalchord.Nlp.Worker.Records.{claim_data}
use signalchord.Search.Project.{
  Storage, put_entry, entities, claims, entry_id, request_of, entity_request, claim_request,
}

module _ {A V : Type 0} (rt : Runtime A V) (storage : Storage A) where
  envelope-inv :
      (origin version : String) (source : Json A) (event_type : String) (key : Json A)
      (payload : Fields A) (stage : String) (event : Fields A)
      → envelope rt origin version source event_type key payload stage ≡ ok event
      → (t : Json A) × (at : Json A) × (c : Json A) × (i : Json A) × (item "tenant_id" source
          ≡ ok t)
        × (envelope_fields rt origin version t at c i event_type key payload stage ≡ event)
  unfolding envelope
  envelope-inv origin version source event_type key payload stage event h =
      let (t, e, h₁) = bind-ok_inv (item "tenant_id" source) _ event h in
      let (at, _, h₂) = bind-ok_inv (get_item "occurred_at" (text rt.now) source) _ event h₁ in
      let (c, _, h₃) = bind-ok_inv (item "correlation_id" source) _ event h₂ in
      let (i, _, h₄) = bind-ok_inv (item "event_id" source) _ event h₃ in
      (t, at, c, i, e, ok_injective _ _ h₄)

  -- Of the event that the entity worker publishes about a resolved mention, the search projector
  -- makes an entry for the entity, under the tenant of the event that the mention came in.
  pub request_of-resolved :
      {F : Type 0} (rs : Resolver A F) (source : Json A) (r : Resolved (Json A) F)
      (event : Fields A)
      → envelope rt entity_origin entity_version source "entity.resolved.v1"
          (text r.entity_id)
          (dict (resolved_entries rt rs r))
          "entity-resolution"
        ≡ ok event
      → (t : Json A) × (body : Fields A) × (item "tenant_id" source ≡ ok t)
        × (request_of rt storage (object event)
            ≡ ok (some (put_entry entities (entry_id rt storage t (text r.entity_id)) body)))
  unfolding request_of entity_request
  request_of-resolved rs source r event h =
      let (t, at, c, i, e, f) = envelope-inv _ _ source _ _ _ _ event h in
      (t, _, e, ap (λ d. request_of rt storage (object d)) (sym f) ∙ refl)

  -- Of the event that the claim worker publishes about a claim that the NLP worker extracted, the
  -- search projector makes an entry for the claim, under the tenant of the claim's event.
  pub request_of-clustered :
      (pf : Platform A) (document_id : Json A) (result : Extraction A) (claim : Claim)
      (source : Json A) (clustered : ClusteredClaim) (event : Fields A)
      → envelope rt claim_origin claim_version source "claim.clustered.v1"
          (text clustered.cluster_id)
          (merge (claim_data rt pf document_id result claim) (clustered_entries clustered))
          "claim-clustering"
        ≡ ok event
      → (t : Json A) × (body : Fields A) × (item "tenant_id" source ≡ ok t)
        × (request_of rt storage (object event)
            ≡ ok (some (put_entry claims (entry_id rt storage t (text claim.claim_id)) body)))
  unfolding request_of claim_request
  request_of-clustered pf document_id result claim source clustered event h =
      let (t, at, c, i, e, f) = envelope-inv _ _ source _ _ _ _ event h in
      (t, _, e, ap (λ d. request_of rt storage (object d)) (sym f) ∙ refl)
