-- ===== src/Pipeline/Claims.antt =====
-- From services/nlp-pipeline/worker.py through services/claim-intelligence/worker.py to
-- services/graph-projector/worker.py.
use Prim.Native.String.{String}
use signalchord.Prelude.{
  ℕ, ◌≡◌, refl, sym, subst, true, Option, List, [], ◌∷◌, All, map, ok, ok_injective,
}
use signalchord.Graph.Json.{Json, text, object}
use signalchord.Graph.Letters.{has_letter}
use signalchord.Graph.Contract.{IsVisible, IsAccepted}
use signalchord.Events.Values.{Runtime}
use signalchord.Events.Envelope.{Keyed}
use signalchord.Claims.Worker.Mutations.{
  upsert_claim, upsert_evidence, mutations_of, graph_mutations,
}
use signalchord.Claims.Worker.Contract.{HasId, prefixed-IsVisible, graph_mutations-IsAccepted}
use signalchord.Nlp.Document.{Claim, Language, Pattern, evidence}
use signalchord.Nlp.Relations.{claim_of, extract_claims}
use signalchord.Nlp.Extract.{Extraction}
use signalchord.Nlp.Worker.Source.{Platform, envelope}
use signalchord.Nlp.Worker.Inputs.{Origin}
use signalchord.Nlp.Worker.Records.{claim_data}

module _ {A V Raw : Type 0} (rt : Runtime A V) (pf : Platform A) (strip : String → String)
    (loads : Raw → Option (Json A))
    (visible : (s : String) → has_letter s ≡ true → IsVisible strip loads s) where
  module _ (o : Origin A) (document_id : Json A) (result : Extraction A) where
    -- the event about a claim, and its payload
    abbrev pub claim_event : Claim → Json A
    claim_event c = object (
        envelope rt pf "claim.extracted.v1" o.tenant_id o.correlation_id o.causation_id
          (text c.claim_id) (claim_data rt pf document_id result c) "claim-extraction"
          o.occurred_at)

    abbrev pub claim_payload : Claim → Json A
    claim_payload c = object (claim_data rt pf document_id result c)

    -- the claim worker makes mutations of it, whatever cluster the claim is in, and the projector
    -- makes a statement of each
    abbrev pub IsWritten : Claim → Type 0
    IsWritten c =
        (cluster_id normalized : String)
        → (ms : List (Keyed A)) × (graph_mutations rt (claim_event c) (claim_payload c) cluster_id
              normalized
            ≡ ok ms)
          × All (λ k. IsAccepted strip loads k.1) ms

    claim-IsWritten :
        (c : Claim)
        → IsVisible strip loads c.claim_id
        → IsVisible strip loads c.evidence.evidence_id
        → IsWritten c
    unfolding graph_mutations mutations_of upsert_claim upsert_evidence envelope
    claim-IsWritten c v w cluster_id normalized = (
      _,
      refl,
      graph_mutations-IsAccepted rt strip loads visible (claim_event c) (claim_payload c) cluster_id
          normalized _ (λ x e. (c.claim_id, sym (ok_injective _ _ e), v))
          (λ x e.
            subst (HasId rt strip loads visible "evidence_id") (ok_injective _ _ e)
              (λ y f. (c.evidence.evidence_id, sym (ok_injective _ _ f), w)))
          refl,
    )

    claims-IsWritten :
        (lang : Language) (id body : String) (spans : List (ℕ × ℕ))
        → All IsWritten (map (claim_of lang id body) spans)
    unfolding evidence
    claims-IsWritten lang id body [] = tt
    claims-IsWritten lang id body ((start, end) ∷ spans) = (
      claim-IsWritten (claim_of lang id body (start, end))
          (prefixed-IsVisible rt strip loads visible "claim:" _ refl)
          (prefixed-IsVisible rt strip loads visible "ev:" _ refl),
      claims-IsWritten lang id body spans,
    )

    -- If stripping leaves something of a text with a letter: of every event that the NLP worker
    -- publishes about a claim of a document, the claim worker makes mutations without an exception,
    -- and the projector makes a statement of each of them, in an event of any tenant.
    pub extract_claims-IsWritten :
        (lang : Language) (id body : String) → All IsWritten (extract_claims lang id body)
    unfolding extract_claims
    extract_claims-IsWritten lang id body =
        claims-IsWritten lang id body (lang.finditer Pattern.claim body)
