-- ===== src/Nlp/Worker/Inputs.antt =====
-- services/nlp-pipeline/worker.py: what handle_one_message reads in the event before it publishes.
use Prim.Native.String.{String}
use signalchord.Prelude.{Option, none, some, Result, ok, err, ◌>>=◌, if◌then◌else◌}
use signalchord.Kafka.World.{Exn}
use signalchord.Graph.Json.{Json, text, object, other}
use signalchord.Events.Values.{Runtime, item}
use signalchord.Nlp.Document.{Language}
use signalchord.Nlp.Extract.{Extraction, validation_error, document, extract}
use signalchord.Nlp.Worker.Source.{Platform}
use signalchord.Nlp.Worker.Mutations.{get_or_null}

-- what every event takes from the source
pub record Origin (A : Type 0) : Type 0 where
  pub tenant_id : Json A
  pub correlation_id : Json A
  pub causation_id : Json A
  pub occurred_at : Json A

module _ {A V : Type 0} (rt : Runtime A V) (pf : Platform A) where
  unfoldable pub origin_of : Json A → Result Exn (Origin A)
  origin_of source = do
    tenant_id ← item "tenant_id" source
    correlation_id ← item "correlation_id" source
    causation_id ← item "event_id" source
    occurred_at ← get_or_null rt pf "occurred_at" source
    ok (record {
      tenant_id = tenant_id;
      correlation_id = correlation_id;
      causation_id = causation_id;
      occurred_at = occurred_at;
    })

  -- what pydantic takes for a `str`
  abbrev pub valid_text : Json A → Result Exn String
  valid_text (text s) = ok s
  valid_text (object d) = err validation_error
  valid_text (other a) = err validation_error

  -- and for a `str | None`
  abbrev pub valid_option : Json A → Result Exn (Option String)
  valid_option (text s) = ok (some s)
  valid_option (object d) = err validation_error
  valid_option (other a) = if pf.is_none a then ok none else err validation_error

  -- `extract(Document(...))`
  unfoldable pub extraction : Language → Json A → Json A → String → Result Exn (Extraction A)
  unfolding document extract
  extraction lang document_id language_hint body = do
    id ← valid_text document_id
    hint ← valid_option language_hint
    doc ← document id body hint
    extract lang pf.hash_embedding doc

  unfoldable pub read_payload : Language → Json A → String → Result Exn (Extraction A)
  unfolding extraction
  read_payload lang payload body = do
    document_id ← item "document_id" payload
    language_hint ← get_or_null rt pf "language_hint" payload
    extraction lang document_id language_hint body
