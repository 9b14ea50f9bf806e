-- ===== src/Nlp/Mentions.antt =====
-- services/nlp-pipeline/app.py: extract_mentions.
pub mod Overlap
use Prim.Native.String.{String, ◌++◌}
use signalchord.Prelude.{
  ℕ, ◌-◌, Bool, true, false, ◌&&◌, ◌||◌, List, [], ◌∷◌, sorted, ltb, ◌==◌, if◌then◌else◌, map,
}
use signalchord.Prelude
use signalchord.Nlp.Document.{Evidence, Mention, Pattern, Language, evidence, slice}

-- a span that some pattern matches
pub record Candidate : Type 0 where
  pub start : ℕ
  pub end : ℕ
  pub entity_type : String
  pub value : String
  pub confidence : ℕ

-- The order of the key (start, -(end - start), -confidence): the first, then the longest, then the
-- surest.
abbrev pub before : Candidate → Candidate → Bool
before a b =
    if a.start == b.start
    then (if (a.end - a.start) == (b.end - b.start)
        then ltb b.confidence a.confidence
        else ltb (b.end - b.start) (a.end - a.start))
    else ltb a.start b.start

-- `start < existing_end and end > existing_start`
abbrev pub overlaps : Candidate → Candidate → Bool
overlaps c a = ltb c.start a.end && ltb a.start c.end

abbrev pub overlaps_any : Candidate → List Candidate → Bool
overlaps_any c [] = false
overlaps_any c (a ∷ accepted) = overlaps c a || overlaps_any c accepted

-- the loop over the sorted candidates; the spans accepted so far, first accepted first
unfoldable pub accept : List Candidate → List Candidate → List Candidate
accept accepted [] = []
accept accepted (c ∷ cs) =
    let skipped = accept accepted cs in
    let rest = accept (Prelude.◌++◌ accepted (c ∷ [])) cs in
    if overlaps_any c accepted then skipped else c ∷ rest

module _ (lang : Language) where
  open lang use {strip, finditer}

  abbrev pub candidate_of : String → String → ℕ → ℕ × ℕ → Candidate
  candidate_of text entity_type confidence (start, end) = record {
    start = start;
    end = end;
    entity_type = entity_type;
    value = strip (slice text start end);
    confidence = confidence;
  }

  abbrev pub matches : String → String → Pattern → ℕ → List Candidate
  matches text entity_type pattern confidence =
      map (candidate_of text entity_type confidence) (finditer pattern text)

  -- the loops over the patterns and their matches
  unfoldable pub candidates : String → List Candidate
  candidates text = Prelude.◌++◌ (matches text "Company" Pattern.company 94) (
      Prelude.◌++◌ (matches text "GovernmentAgency" Pattern.agency 93) (
        Prelude.◌++◌ (matches text "Organization" Pattern.organization 91) (
          Prelude.◌++◌ (matches text "Location" Pattern.location 97)
            (matches text "Person" Pattern.person 83))))

  abbrev pub mention_of : String → String → Candidate → Mention
  mention_of document_id text c =
      let ev = evidence lang document_id text c.start c.end in
      record {
        mention_id = "mention:" ++ ev.evidence_id;
        text = c.value;
        entity_type = c.entity_type;
        confidence = c.confidence;
        evidence = ev;
      }

  unfoldable pub extract_mentions : String → String → List Mention
  unfolding accept candidates sorted evidence
  extract_mentions document_id text =
      map (mention_of document_id text) (accept [] (sorted before (candidates text)))
