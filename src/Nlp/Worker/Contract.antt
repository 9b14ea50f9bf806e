-- ===== src/Nlp/Worker/Contract.antt =====
-- The mutations of services/nlp-pipeline/worker.py and what services/graph-projector/worker.py makes
-- of them.
use Prim.Native.String.{String, ◌++◌}
use signalchord.Prelude.{
  ◌≡◌, refl, ap, ◌∙◌, subst, true, false, none, some, Option, List, All, ok, bind-ok_inv,
  ok_injective, lookup, ◌=ˢ◌,
}
use signalchord.Graph.Json.{Json, text, Fields}
use signalchord.Graph.Letters.{has_letter}
use signalchord.Graph.Statement.{node_labels, relationship_types}
use signalchord.Graph.Contract.{IsVisible, IsAccepted, node-IsAccepted, link-IsAccepted}
use signalchord.Events.Values.{Runtime, item, get_item}
use signalchord.Events.Envelope.{Keyed}
use signalchord.Claims.Worker.Contract.{IsId, HasId, prefixed-IsVisible}
use signalchord.Nlp.Extract.{Extraction}
use signalchord.Nlp.Worker.Source.{Platform}
use signalchord.Nlp.Worker.Mutations.{
  get_or_null, common_of, node, link, article_of, Details, details, document_properties,
  article_properties, source_properties, mutations_of, graph_base_mutations,
}

module _ {A V Raw : Type 0} (rt : Runtime A V) (pf : Platform A) (strip : String → String)
    (loads : Raw → Option (Json A))
    (visible : (s : String) → has_letter s ≡ true → IsVisible strip loads s) where
  abbrev IsIdentity : Json A → Type 0
  IsIdentity = IsId rt strip loads visible

  prefixed : (p s : String) → has_letter p ≡ true → IsVisible strip loads (p ++ s)
  prefixed = prefixed-IsVisible rt strip loads visible

  node-IsTaken :
      (kind : String) (id : Json A) (common : Fields A) (properties : List (String × Json A))
      (labels : List String)
      → (kind =ˢ "mark_source_takedown") ≡ false
      → (kind =ˢ "upsert_entity") ≡ false
      → lookup kind node_labels ≡ some labels
      → has_letter kind ≡ true
      → IsIdentity id
      → IsAccepted strip loads (node rt pf kind id common properties).1
  node-IsTaken kind id common properties labels a b c letter (i, ei, vi) =
      node-IsAccepted strip loads _ kind i _ (refl, visible kind letter) (ap some ei, vi) refl a
        labels b c

  link-IsTaken :
      (kind stable_id relation : String) (from_id to_id : Json A) (common : Fields A)
      → (kind =ˢ "mark_source_takedown") ≡ false
      → (kind =ˢ "upsert_entity") ≡ false
      → lookup kind node_labels ≡ none
      → lookup kind relationship_types ≡ some relation
      → has_letter kind ≡ true
      → IsVisible strip loads stable_id
      → IsIdentity from_id
      → IsIdentity to_id
      → IsAccepted strip loads (link rt pf kind stable_id from_id to_id common).1
  link-IsTaken kind stable_id relation from_id to_id common a b c d letter vi (f, ef, vf)
        (t, et, vt) =
      link-IsAccepted strip loads _ kind stable_id _ (refl, visible kind letter) (refl, vi) refl a
        relation f t b c d (ap some ef, vf) (ap some et, vt)

  mutations_of-IsAccepted :
      (document_id : Json A) (common : Fields A) (result : Extraction A) (d : Details rt pf)
      → IsIdentity document_id
      → IsIdentity d.source_id
      → All (λ k. IsAccepted strip loads k.1) (mutations_of rt pf document_id common result d)
  mutations_of-IsAccepted document_id common result d i s =
      let article : IsIdentity (text (article_of rt pf document_id)) =
        (_, refl, prefixed "article:" (rt.str_of document_id) refl) in
      (
        node-IsTaken "upsert_document" document_id common (document_properties rt pf d) _ refl refl
            refl refl i,
        (
          node-IsTaken "upsert_article" (text (article_of rt pf document_id)) common
              (article_properties rt pf document_id result d) _ refl refl refl refl article,
          (
            node-IsTaken "upsert_source" d.source_id common (source_properties rt pf) _ refl refl
                refl refl s,
            (
              link-IsTaken "link_published" _ _ _ d.source_id common refl refl refl refl refl
                  (prefixed "published:" _ refl) article s,
              (
                link-IsTaken "link_article_document" _ _ _ document_id common refl refl refl refl
                    refl (prefixed "article-document:" _ refl) article i,
                tt,
              ),
            ),
          ),
        ),
      )

  details_source_id :
      (payload : Json A) (d : Details rt pf)
      → details rt pf payload ≡ ok d
      → get_item "source_id" (text "source:unknown") payload ≡ ok d.source_id
  details_source_id payload d h =
      let (canonical_url, _, h₁) = bind-ok_inv (get_or_null rt pf "canonical_url" payload) _ d h in
      let (title, _, h₂) = bind-ok_inv (get_or_null rt pf "title" payload) _ d h₁ in
      let (uri, _, h₃) = bind-ok_inv (get_or_null rt pf "clean_text_object_uri" payload) _ d h₂ in
      let (published_at, _, h₄) = bind-ok_inv (get_or_null rt pf "published_at" payload) _ d h₃ in
      let (source_id, e, h₅) =
        bind-ok_inv (get_item "source_id" (text "source:unknown") payload) _ d h₄ in
      e ∙ ap (λ (d : Details rt pf). ok d.source_id) (ok_injective _ _ h₅)

  -- If stripping leaves something of a text with a letter: every mutation of the graph that the
  -- worker makes of a document is one that the projector makes a statement of, in an event of any
  -- tenant, provided that the identifier of the document and the one of the source, or the
  -- identifier that stands for an unknown source, are texts which are not blank.
  pub graph_base_mutations-IsAccepted :
      (source payload : Json A) (result : Extraction A) (ms : List (Keyed A))
      → HasId rt strip loads visible "document_id" payload
      → ((v : Json A) → get_item "source_id" (text "source:unknown") payload ≡ ok v → IsIdentity v)
      → graph_base_mutations rt pf source payload result ≡ ok ms
      → All (λ k. IsAccepted strip loads k.1) ms
  unfolding graph_base_mutations
  graph_base_mutations-IsAccepted source payload result ms has_document has_source h =
      let (document_id, e, h₁) = bind-ok_inv (item "document_id" payload) _ ms h in
      let (tenant_id, _, h₂) = bind-ok_inv (item "tenant_id" source) _ ms h₁ in
      let (observed_at, _, h₃) = bind-ok_inv (get_or_null rt pf "occurred_at" source) _ ms h₂ in
      let (d, e₄, h₄) = bind-ok_inv (details rt pf payload) _ ms h₃ in
      subst (All (λ k. IsAccepted strip loads k.1)) (ok_injective _ _ h₄) (
        mutations_of-IsAccepted document_id (common_of rt pf tenant_id observed_at result) result d
          (has_document document_id e) (has_source d.source_id (details_source_id payload d e₄)))
