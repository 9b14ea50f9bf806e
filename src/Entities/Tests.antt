-- ===== src/Entities/Tests.antt =====
-- Concrete mentions for services/entity-resolution/resolver.py, with a confidence in percent.
use signalchord.Prelude.{ℕ, ◌≡◌, refl, String, Bool, true, none, [], ◌∷◌, Result, ok, err, leb}
use signalchord.Entities.Slug.{slug, is_plain, slug-is_plain, squash, strip_left, strip_right}
use signalchord.Kafka.Envelope.{prefix}
use signalchord.Kafka.World.{Exn}
use signalchord.Graph.Json.{Json, text, object, other, Fields}
use signalchord.Events.Values.{dict, type_error, value_error}
use signalchord.Entities.Resolve.{
  Resolved, resolve, resolve_mention, IsFlagged, is_sure, resolve_mention-IsFlagged,
}

abbrev same : String → String
same s = s

abbrev ab : String → String
ab s = "ab"

slug_sample : slug same ab "north star labs!" ≡ "north-star-labs"
unfolding slug squash strip_left strip_right prefix
slug_sample = refl

slug-is_plain_example : is_plain (slug same ab "north star labs!") ≡ true
slug-is_plain_example = slug-is_plain same ab (λ s. refl) "north star labs!"

abbrev mention : Fields ℕ
mention = dict (
    ("mention_id", text "m1")
    ∷ ("text", text "northstar")
    ∷ ("entity_type", text "organization")
    ∷ ("confidence", other 95)
    ∷ ("document_id", text "d1")
    ∷ ("evidence", other 7)
    ∷ [])

-- numbers in percent
abbrev percent : Json ℕ → Result Exn ℕ
percent (other n) = ok n
percent (text s) = err (value_error s)
percent (object d) = err type_error

abbrev same_number : ℕ → ℕ
same_number n = n

abbrev resolved : Resolved (Json ℕ) ℕ
resolved = record {
  mention_id = "m1";
  document_id = text "d1";
  entity_id = "organization:northstar";
  entity_type = text "organization";
  display_name = "northstar";
  confidence = 95;
  status = "model_verified";
  requires_review = Bool.false;
  alternatives = [];
  evidence = other 7;
  extraction_model = none;
  extraction_version = none;
}

resolve_mention_sample :
    resolve_mention same same ab 0 same_number leb percent mention none ≡ ok resolved
unfolding resolve_mention resolve slug squash strip_left strip_right prefix
resolve_mention_sample = refl

resolve_mention-IsFlagged_example :
    IsFlagged same same ab 0 same_number leb resolved
      (is_sure same same ab 0 same_number leb resolved none)
resolve_mention-IsFlagged_example =
    resolve_mention-IsFlagged same same ab 0 same_number leb percent mention none resolved
      resolve_mention_sample
