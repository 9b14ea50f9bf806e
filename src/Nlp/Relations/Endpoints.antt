-- ===== src/Nlp/Relations/Endpoints.antt =====
-- The mentions that a relation of extract_relations (services/nlp-pipeline/app.py) names.
use Prim.Native.String.{String}
use signalchord.Prelude.{
  ℕ, ◌≡◌, refl, Bool, true, false, Option, none, some, List, [], ◌∷◌, All, if◌then◌else◌, ◌⊎◌, inl,
  inr,
}
use signalchord.Nlp.Document.{Evidence, Mention, Relation, Language, Pattern, evidence, slice}
use signalchord.Nlp.Relations.{
  relation_keywords, first_predicate, is_within, mentions_within, sentence_relation,
  append_relation, relations_of, extract_relations,
}

-- a mention of the list has the identifier
abbrev pub IsIdOf : List Mention → String → Type 0
IsIdOf [] id = ⊥
IsIdOf (m ∷ mentions) id = (m.mention_id ≡ id) ⊎ IsIdOf mentions id

abbrev pub IsBetween : List Mention → Relation → Type 0
IsBetween mentions r = IsIdOf mentions r.subject_mention_id × IsIdOf mentions r.object_mention_id

abbrev AreIdsOf : List Mention → List Mention → Type 0
AreIdsOf mentions xs = All (λ m. IsIdOf mentions m.mention_id) xs

ids_after :
    (m : Mention) (mentions xs : List Mention) → AreIdsOf mentions xs → AreIdsOf (m ∷ mentions) xs
ids_after m mentions [] h = tt
ids_after m mentions (x ∷ xs) h = (inr h.0, ids_after m mentions xs h.1)

ids_self : (mentions : List Mention) → AreIdsOf mentions mentions
ids_self [] = tt
ids_self (m ∷ mentions) = (inl refl, ids_after m mentions mentions (ids_self mentions))

within_step :
    (all : List Mention) (m : Mention) (rest : List Mention) (b : Bool)
    → IsIdOf all m.mention_id
    → AreIdsOf all rest
    → AreIdsOf all (if b then m ∷ rest else rest)
within_step all m rest true h g = (h, g)
within_step all m rest false h g = g

within_ids :
    (all : List Mention) (span : ℕ × ℕ) (mentions : List Mention)
    → AreIdsOf all mentions
    → AreIdsOf all (mentions_within span mentions)
unfolding mentions_within
within_ids all span [] h = tt
within_ids all span (m ∷ mentions) h =
    within_step all m (mentions_within span mentions) (is_within span m) h.0
      (within_ids all span mentions h.1)

append_relation-IsBetween :
    (all : List Mention) (lang : Language) (document_id : String) (ev : Evidence)
    (predicate : Option String) (found : List Mention) (rest : List Relation)
    → AreIdsOf all found
    → All (IsBetween all) rest
    → All
        (IsBetween all)
        (append_relation (sentence_relation lang document_id ev predicate found) rest)
append_relation-IsBetween all lang document_id ev predicate [] rest h g = g
append_relation-IsBetween all lang document_id ev predicate (m ∷ []) rest h g = g
append_relation-IsBetween all lang document_id ev none (m ∷ o ∷ more) rest h g = g
append_relation-IsBetween all lang document_id ev (some p) (m ∷ o ∷ more) rest h g =
    ((h.0, h.1.0), g)

module _ (lang : Language) (document_id text : String) (mentions : List Mention) where
  relations_of-IsBetween :
      (spans : List (ℕ × ℕ))
      → All (IsBetween mentions) (relations_of lang document_id text mentions spans)
  unfolding relations_of
  relations_of-IsBetween [] = tt
  relations_of-IsBetween ((start, end) ∷ spans) =
      append_relation-IsBetween mentions lang document_id (evidence lang document_id text start end)
        (first_predicate relation_keywords (lang.casefold (slice text start end)))
        (mentions_within (start, end) mentions) (relations_of lang document_id text mentions spans)
        (within_ids mentions (start, end) mentions (ids_self mentions))
        (relations_of-IsBetween spans)

  -- Every extracted relation is between two of the mentions: its subject and its object have the
  -- identifier of a mention.
  pub extract_relations-IsBetween :
      All (IsBetween mentions) (extract_relations lang document_id text mentions)
  unfolding extract_relations
  extract_relations-IsBetween = relations_of-IsBetween (lang.finditer Pattern.sentence text)
