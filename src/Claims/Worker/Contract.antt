-- ===== src/Claims/Worker/Contract.antt =====
-- The mutations of services/claim-intelligence/worker.py and what
-- services/graph-projector/worker.py makes of them.
use Prim.Native.String.{String, ◌++◌}
use signalchord.Prelude.{
  ◌≡◌, refl, ap, subst, true, Option, some, List, [], ◌∷◌, All, ok, bind-ok_inv, ok_injective,
  false, none, lookup, ◌=ˢ◌,
}
use signalchord.Graph.Json.{Json, text, Fields}
use signalchord.Graph.Letters.{has_letter, has_letter-append_left}
use signalchord.Graph.Statement.{node_labels, relationship_types}
use signalchord.Graph.Contract.{IsVisible, IsAccepted, node-IsAccepted, link-IsAccepted}
use signalchord.Events.Values.{Runtime, item, dict}
use signalchord.Events.Envelope.{Keyed}
use signalchord.Claims.Worker.Mutations.{
  get_or_null, common_of, article_of, article_claim_id, evidence_claim_id, upsert_claim,
  upsert_evidence, link_of, links_of, mutations_of, graph_mutations,
}

module _ {A V Raw : Type 0} (rt : Runtime A V) (strip : String → String)
    (loads : Raw → Option (Json A))
    (visible : (s : String) → has_letter s ≡ true → IsVisible strip loads s) where
  -- a value that is a text which is not blank
  abbrev pub IsId : Json A → Type 0
  IsId v = (s : String) × (v ≡ text s) × IsVisible strip loads s

  pub prefixed-IsVisible : (p s : String) → has_letter p ≡ true → IsVisible strip loads (p ++ s)
  prefixed-IsVisible p s h = visible (p ++ s) (has_letter-append_left p s h)

  pub link_of-IsAccepted :
      (kind relation : String) (stable_id from_id to_id : Json A) (common : Fields A)
      (confidence : Json A)
      → (kind =ˢ "mark_source_takedown") ≡ false
      → (kind =ˢ "upsert_entity") ≡ false
      → lookup kind node_labels ≡ none
      → lookup kind relationship_types ≡ some relation
      → has_letter kind ≡ true
      → IsId stable_id
      → IsId from_id
      → IsId to_id
      → IsAccepted strip loads (link_of rt kind stable_id from_id to_id common confidence).1
  link_of-IsAccepted kind relation stable_id from_id to_id common confidence a b c d letter
        (i, ei, vi) (f, ef, vf) (t, et, vt) =
      link-IsAccepted strip loads _ kind i _ (refl, visible kind letter) (ap some ei, vi) refl a
        relation f t b c d (ap some ef, vf) (ap some et, vt)

  upsert_claim-IsAccepted :
      (claim_id : Json A) (common : Fields A) (payload : Json A) (cluster_id normalized : String)
      (k : Keyed A)
      → IsId claim_id
      → upsert_claim rt claim_id common payload cluster_id normalized ≡ ok k
      → IsAccepted strip loads k.1
  unfolding upsert_claim
  upsert_claim-IsAccepted claim_id common payload cluster_id normalized k (i, ei, vi) h =
      let (_, _, h₁) = bind-ok_inv (item "proposition" payload) _ k h in
      let (_, _, h₂) = bind-ok_inv (item "confidence" payload) _ k h₁ in
      let (_, _, h₃) = bind-ok_inv (get_or_null rt "extraction_model" payload) _ k h₂ in
      let (_, _, h₄) = bind-ok_inv (get_or_null rt "extraction_version" payload) _ k h₃ in
      subst (λ k. IsAccepted strip loads k.1) (ok_injective _ _ h₄)
        (node-IsAccepted strip loads _ "upsert_claim" i _ (refl, visible "upsert_claim" refl)
          (ap some ei, vi) refl refl ("Claim" ∷ []) refl refl)

  pub upsert_evidence-IsAccepted :
      (evidence_id : Json A) (common : Fields A) (document_id evidence payload : Json A)
      (k : Keyed A)
      → IsId evidence_id
      → upsert_evidence rt evidence_id common document_id evidence payload ≡ ok k
      → IsAccepted strip loads k.1
  unfolding upsert_evidence
  upsert_evidence-IsAccepted evidence_id common document_id evidence payload k (i, ei, vi) h =
      let (_, _, h₁) = bind-ok_inv (item "start_offset" evidence) _ k h in
      let (_, _, h₂) = bind-ok_inv (item "end_offset" evidence) _ k h₁ in
      let (_, _, h₃) = bind-ok_inv (item "span_hash" evidence) _ k h₂ in
      let (_, _, h₄) = bind-ok_inv (item "confidence" payload) _ k h₃ in
      subst (λ k. IsAccepted strip loads k.1) (ok_injective _ _ h₄)
        (node-IsAccepted strip loads _ "upsert_evidence" i _ (refl, visible "upsert_evidence" refl)
          (ap some ei, vi) refl refl ("Evidence" ∷ []) refl refl)

  -- an item that is there, if it is an identifier
  abbrev pub HasId : String → Json A → Type 0
  HasId key value = (v : Json A) → item key value ≡ ok v → IsId v

  links_of-IsAccepted :
      (claim_id document_id evidence_id : Json A) (common : Fields A) (confidence : Json A)
      → IsId claim_id
      → IsId evidence_id
      → All
          (λ k. IsAccepted strip loads k.1)
          (links_of rt claim_id document_id evidence_id common confidence)
  links_of-IsAccepted claim_id document_id evidence_id common confidence c e = (
    link_of-IsAccepted "link_article_claim" "MAKES_CLAIM" (article_claim_id rt document_id claim_id)
        (text (article_of rt document_id)) claim_id common confidence refl refl refl refl refl
        (_, refl, prefixed-IsVisible "article-claim:" _ refl)
        (_, refl, prefixed-IsVisible "article:" (rt.str_of document_id) refl) c,
    (
      link_of-IsAccepted "link_evidence_claim" "EVIDENCE_FOR"
          (evidence_claim_id rt evidence_id claim_id) evidence_id claim_id common confidence refl
          refl refl refl refl (_, refl, prefixed-IsVisible "evidence-claim:" _ refl) e c,
      tt,
    ),
  )

  mutations_of-IsAccepted :
      (claim_id document_id evidence : Json A) (common : Fields A) (payload : Json A)
      (cluster_id normalized : String) (ms : List (Keyed A))
      → IsId claim_id
      → HasId "evidence_id" evidence
      → mutations_of rt claim_id document_id evidence common payload cluster_id normalized ≡ ok ms
      → All (λ k. IsAccepted strip loads k.1) ms
  unfolding mutations_of
  mutations_of-IsAccepted claim_id document_id evidence common payload cluster_id normalized ms c
        has_evidence h =
      let (claim, e₁, h₁) =
        bind-ok_inv (upsert_claim rt claim_id common payload cluster_id normalized) _ ms h in
      let (evidence_id, e₂, h₂) = bind-ok_inv (item "evidence_id" evidence) _ ms h₁ in
      let (found, e₃, h₃) =
        bind-ok_inv (upsert_evidence rt evidence_id common document_id evidence payload) _ ms h₂ in
      let (confidence, _, h₄) = bind-ok_inv (item "confidence" payload) _ ms h₃ in
      let e = has_evidence evidence_id e₂ in
      subst (All (λ k. IsAccepted strip loads k.1)) (ok_injective _ _ h₄) (
        upsert_claim-IsAccepted claim_id common payload cluster_id normalized claim c e₁,
        (
          upsert_evidence-IsAccepted evidence_id common document_id evidence payload found e e₃,
          links_of-IsAccepted claim_id document_id evidence_id common confidence c e,
        ),
      )

  -- If stripping leaves something of a text with a letter: every mutation that graph_mutations
  -- makes of a claim, in an event of any tenant, is one that the projector makes a statement of,
  -- provided that the identifiers of the claim and of its evidence are texts which are not blank.
  pub graph_mutations-IsAccepted :
      (source payload : Json A) (cluster_id normalized : String) (ms : List (Keyed A))
      → HasId "claim_id" payload
      → ((evidence : Json A) → item "evidence" payload ≡ ok evidence → HasId "evidence_id" evidence)
      → graph_mutations rt source payload cluster_id normalized ≡ ok ms
      → All (λ k. IsAccepted strip loads k.1) ms
  unfolding graph_mutations
  graph_mutations-IsAccepted source payload cluster_id normalized ms has_claim has_evidence h =
      let (claim_id, e₁, h₁) = bind-ok_inv (item "claim_id" payload) _ ms h in
      let (document_id, _, h₂) = bind-ok_inv (item "document_id" payload) _ ms h₁ in
      let (evidence, e₃, h₃) = bind-ok_inv (item "evidence" payload) _ ms h₂ in
      let (tenant_id, _, h₄) = bind-ok_inv (item "tenant_id" source) _ ms h₃ in
      let (observed_at, _, h₅) = bind-ok_inv (get_or_null rt "occurred_at" source) _ ms h₄ in
      mutations_of-IsAccepted claim_id document_id evidence
        (dict (common_of rt tenant_id observed_at)) payload cluster_id normalized ms
        (has_claim claim_id e₁) (has_evidence evidence e₃) h₅
