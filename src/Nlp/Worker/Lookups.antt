-- ===== src/Nlp/Worker/Lookups.antt =====
-- What the events of services/nlp-pipeline/worker.py are sure to hold.
use Prim.Native.String.{String}
use mathlib.Core.Bool.{false≢true}
use signalchord.Prelude.{
  ◌≡◌, refl, ap, ◌⊎◌, inl, inr, Bool, true, false, Option, none, some, List, [], ◌∷◌, All, ok, ◌=ˢ◌,
  eq_refl, subst,
}
use signalchord.Graph.Json.{Json, Fields}
use signalchord.Events.Values.{Runtime}
use signalchord.Nlp.Document.{Mention, Relation, Language}
use signalchord.Nlp.Extract.{Document, Extraction, extraction_of}
use signalchord.Nlp.Relations.Endpoints.{IsIdOf, IsBetween, extract_relations-IsBetween}
use signalchord.Nlp.Worker.Source.{Platform}
use signalchord.Nlp.Worker.Records.{
  or_first, find_mention, or_key_error, mention_by_id, relation_data,
}

or_first-found :
    (o : Option Mention) (b : Bool) (m : Mention)
    → ((n : Mention) × (o ≡ some n)) ⊎ (b ≡ true)
    → (n : Mention) × (or_first o b m ≡ some n)
or_first-found (some n) b m h = (n, refl)
or_first-found none true m h = (m, refl)
or_first-found none false m (inl (n, e)) = (n, e)
or_first-found none false m (inr e) = absurd (false≢true e)

pub find_mention-found :
    (id : String) (mentions : List Mention)
    → IsIdOf mentions id
    → (m : Mention) × (find_mention id mentions ≡ some m)
find_mention-found id [] h = elim h [ ]
find_mention-found id (m ∷ mentions) (inl e) =
    or_first-found (find_mention id mentions) (m.mention_id =ˢ id) m
      (inr (subst (λ i. (m.mention_id =ˢ i) ≡ true) e (eq_refl m.mention_id)))
find_mention-found id (m ∷ mentions) (inr h) =
    or_first-found (find_mention id mentions) (m.mention_id =ˢ id) m
      (inl (find_mention-found id mentions h))

mention_by_id-found :
    (id : String) (mentions : List Mention)
    → IsIdOf mentions id
    → (m : Mention) × (mention_by_id id mentions ≡ ok m)
unfolding mention_by_id
mention_by_id-found id mentions h =
    let (m, e) = find_mention-found id mentions h in (m, ap (or_key_error id) e)

module _ {A V : Type 0} (rt : Runtime A V) (pf : Platform A) where
  relation_data-found :
      (document_id : Json A) (result : Extraction A) (r : Relation)
      → IsBetween result.mentions r
      → (d : Fields A) × (relation_data rt pf document_id result r ≡ ok d)
  unfolding relation_data
  relation_data-found document_id result r (s, o) =
      let (m, e) = mention_by_id-found r.subject_mention_id result.mentions s in
      let (n, f) = mention_by_id-found r.object_mention_id result.mentions o in rw (e, f) (_, refl)

  relation_data-found_each :
      (document_id : Json A) (result : Extraction A) (relations : List Relation)
      → All (IsBetween result.mentions) relations
      → All (λ r. (d : Fields A) × (relation_data rt pf document_id result r ≡ ok d)) relations
  relation_data-found_each document_id result [] h = tt
  relation_data-found_each document_id result (r ∷ relations) h = (
    relation_data-found document_id result r h.0,
    relation_data-found_each document_id result relations h.1,
  )

  -- In what extract makes of a document, the worker finds the mentions that a relation names: no
  -- relation raises a KeyError at mention_by_id.
  pub relation_data-extraction_of :
      (lang : Language) (doc : Document) (document_id : Json A)
      → let result = extraction_of lang pf.hash_embedding doc in
        All
          (λ r. (d : Fields A) × (relation_data rt pf document_id result r ≡ ok d))
          result.relations
  relation_data-extraction_of lang doc document_id =
      let result = extraction_of lang pf.hash_embedding doc in
      relation_data-found_each document_id result result.relations
        (extract_relations-IsBetween lang doc.document_id doc.text result.mentions)
