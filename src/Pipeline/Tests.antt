-- ===== src/Pipeline/Tests.antt =====
-- A concrete document on its way through the workers under services/.
use signalchord.Prelude.{ℕ, ◌≡◌, refl, All, length}
use signalchord.Graph.Json.{text, other}
use signalchord.Events.Values.{Runtime}
use signalchord.Events.Tests.{no_strip, no_json, runtime, visible}
use signalchord.Nlp.Mentions.{extract_mentions}
use signalchord.Nlp.Relations.{extract_claims}
use signalchord.Nlp.Tests.{body, lang, platform, sample, result}
use signalchord.Entities.Worker.Tests.{resolver}
use signalchord.Nlp.Worker.Inputs.{Origin}
use signalchord.Pipeline.Claims.{IsWritten, extract_claims-IsWritten}
use signalchord.Pipeline.Mentions.{IsResolved, extract_mentions-IsResolved}
use signalchord.Pipeline.Relations.{IsRelated, extraction-IsRelated}

abbrev rt : Runtime (Unit {0}) ℕ
rt = runtime (other tt)

abbrev origin : Origin (Unit {0})
origin = record {
  tenant_id = text "acme";
  correlation_id = text "r1";
  causation_id = text "e1";
  occurred_at = other tt;
}

-- the document has a claim
one_claim : length (extract_claims lang "d1" body) ≡ 1
unfolding extract_claims
one_claim = refl

extract_claims-IsWritten_example :
    All
      (IsWritten rt platform no_strip no_json visible origin (text "d1") result)
      (extract_claims lang "d1" body)
extract_claims-IsWritten_example =
    extract_claims-IsWritten rt platform no_strip no_json visible origin (text "d1") result lang
      "d1" body

extract_mentions-IsResolved_example :
    All
      (IsResolved rt platform resolver no_strip no_json visible
        (λ s h. h)
        (λ n. (tt, refl))
        origin
        (text "d1")
        result)
      (extract_mentions lang "d1" body)
extract_mentions-IsResolved_example =
    extract_mentions-IsResolved rt platform resolver no_strip no_json visible (λ s h. h)
      (λ n. (tt, refl)) origin (text "d1") result lang "d1" body

extraction-IsRelated_example :
    All
      (IsRelated rt platform resolver no_strip no_json visible
        (λ s h. h)
        (λ n. (tt, refl))
        origin
        (text "d1")
        result)
      result.relations
extraction-IsRelated_example =
    extraction-IsRelated rt platform resolver no_strip no_json visible (λ s h. h) (λ n. (tt, refl))
      lang sample origin (text "d1")
