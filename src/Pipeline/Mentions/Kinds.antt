-- ===== src/Pipeline/Mentions/Kinds.antt =====
-- The types of the mentions that services/nlp-pipeline/app.py extracts.
use Prim.Native.String.{String}
use Prim.Native.String
use signalchord.Prelude.{
  ℕ, ◌≡◌, refl, true, Bool, List, [], ◌∷◌, ◌++◌, false, All, All-append, map, lookup, some, sorted,
  insert_sorted, if◌then◌else◌,
}
use signalchord.Graph.Letters.{has_letter}
use signalchord.Graph.Statement.{entity_labels}
use signalchord.Nlp.Document.{Mention, Language, Pattern, evidence}
use signalchord.Nlp.Mentions.{
  Candidate, before, overlaps_any, accept, candidate_of, matches, candidates, mention_of,
  extract_mentions,
}

-- a type of the projector
abbrev pub IsKnown : String → Type 0
IsKnown kind =
    (has_letter kind ≡ true) × ((labels : List String) × (lookup kind entity_labels ≡ some labels))

All-if :
    (P : Candidate → Type 0) (b : Bool) (xs ys : List Candidate)
    → All P xs
    → All P ys
    → All P (if b then xs else ys)
All-if P true xs ys h g = h
All-if P false xs ys h g = g

All-insert_sorted :
    (P : Candidate → Type 0) (ltb : Candidate → Candidate → Bool) (x : Candidate)
    (ys : List Candidate)
    → P x
    → All P ys
    → All P (insert_sorted ltb x ys)
unfolding insert_sorted
All-insert_sorted P ltb x [] p h = (p, tt)
All-insert_sorted P ltb x (y ∷ ys) p h =
    All-if P (ltb y x) (y ∷ insert_sorted ltb x ys) (x ∷ y ∷ ys)
      (h.0, All-insert_sorted P ltb x ys p h.1) (p, h)

All-sorted :
    (P : Candidate → Type 0) (ltb : Candidate → Candidate → Bool) (xs : List Candidate)
    → All P xs
    → All P (sorted ltb xs)
unfolding sorted
All-sorted P ltb [] h = tt
All-sorted P ltb (x ∷ xs) h =
    All-insert_sorted P ltb x (sorted ltb xs) h.0 (All-sorted P ltb xs h.1)

All-accept :
    (P : Candidate → Type 0) (accepted cs : List Candidate) → All P cs → All P (accept accepted cs)
unfolding accept
All-accept P accepted [] h = tt
All-accept P accepted (c ∷ cs) h =
    All-if P (overlaps_any c accepted) (accept accepted cs) (c ∷ accept (accepted ++ c ∷ []) cs)
      (All-accept P accepted cs h.1) (h.0, All-accept P (accepted ++ c ∷ []) cs h.1)

-- a mention of such a type, whose evidence has an identifier
abbrev pub IsNamed : Mention → Type 0
IsNamed m =
    IsKnown m.entity_type × ((rest : String) × (m.evidence.evidence_id ≡ String.◌++◌ "ev:" rest))

module _ (lang : Language) where
  matches-IsKnown :
      (body kind : String) (confidence : ℕ) (spans : List (ℕ × ℕ))
      → IsKnown kind
      → All (λ c. IsKnown c.entity_type) (map (candidate_of lang body kind confidence) spans)
  matches-IsKnown body kind confidence [] h = tt
  matches-IsKnown body kind confidence ((start, end) ∷ spans) h =
      (h, matches-IsKnown body kind confidence spans h)

  candidates-IsKnown : (body : String) → All (λ c. IsKnown c.entity_type) (candidates lang body)
  unfolding candidates
  candidates-IsKnown body =
      All-append _ (matches lang body "Company" Pattern.company 94) _
        (matches-IsKnown body "Company" 94 _ (refl, (_, refl)))
        (All-append _ (matches lang body "GovernmentAgency" Pattern.agency 93) _
          (matches-IsKnown body "GovernmentAgency" 93 _ (refl, (_, refl)))
          (All-append _ (matches lang body "Organization" Pattern.organization 91) _
            (matches-IsKnown body "Organization" 91 _ (refl, (_, refl)))
            (All-append _ (matches lang body "Location" Pattern.location 97) _
              (matches-IsKnown body "Location" 97 _ (refl, (_, refl)))
              (matches-IsKnown body "Person" 83 _ (refl, (_, refl))))))

  mentions-IsNamed :
      (id body : String) (cs : List Candidate)
      → All (λ c. IsKnown c.entity_type) cs
      → All IsNamed (map (mention_of lang id body) cs)
  unfolding evidence
  mentions-IsNamed id body [] h = tt
  mentions-IsNamed id body (c ∷ cs) h = ((h.0, (_, refl)), mentions-IsNamed id body cs h.1)

  pub extract_mentions-IsNamed : (id body : String) → All IsNamed (extract_mentions lang id body)
  unfolding extract_mentions
  extract_mentions-IsNamed id body =
      mentions-IsNamed id body (accept [] (sorted before (candidates lang body))) (
        All-accept _ [] (sorted before (candidates lang body))
          (All-sorted _ before (candidates lang body) (candidates-IsKnown body)))
