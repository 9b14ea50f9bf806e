-- ===== src/Kafka/Poison.antt =====
-- services/python_common/poison_message.py: publish_to_dlq and handle_message.
use signalchord.Prelude.{ℕ, String, false, Option, none, some, Result, ok, err, ltb, if◌then◌else◌}
use signalchord.Kafka.World.{
  Exn, Bytes, Message, Broker, World, Action, ◌>>=◌, ◌>>◌, pure, raise, produce, flush, commit,
}
use signalchord.Kafka.Envelope.{Codec, DlqEnvelope, build_dlq_envelope}

-- DlqPublishError is a RuntimeError, hence no ValueError. The texts leave out the topic, the count
-- and the broker's words, which the source interpolates.
abbrev pub dlq_publish_error : String → Exn
dlq_publish_error text = record {
  is_value_error = false;
  type_name = "DlqPublishError";
  text = text;
}

module _ {V C : Type 0} (broker : Broker V) where
  -- the delivery callback runs inside `flush`, so its error is read there
  abbrev pub delivery_error : Action V C (Option String)
  delivery_error w = (ok (broker.delivery_error w.log), w)

  abbrev pub confirm : ℕ → Option String → Action V C (Unit {0})
  confirm pending error =
      if ltb 0 pending
      then raise (dlq_publish_error "timed out waiting for DLQ delivery confirmation")
      else elim error [ none ↦ pure tt | some e ↦ raise (dlq_publish_error "DLQ publish failed") ]

  abbrev pub await : Action V C (Unit {0})
  await = do pending ← flush broker; error ← delivery_error; confirm pending error

  -- produce, flush, and look at what was confirmed
  unfoldable pub publish_to_dlq : String → Option Bytes → V → Action V C (Unit {0})
  publish_to_dlq topic key body = do produce broker topic key body; await

-- What a worker hands over: its name, its DLQ topic, its own event and key for the DLQ (or None),
-- either of which may raise when it is called, and how JSON is made of an envelope and of a text.
pub record Handler (V C A : Type 0) : Type 0 where
  pub origin : String
  pub dlq_topic : String
  pub failed_event : Option (C → Result Exn (Option A))
  pub dlq_key : Option (C → Result Exn (Option Bytes))
  pub of_text : Option String → A
  pub body : DlqEnvelope A → V

module _ {V C A : Type 0} (codec : Codec) (broker : Broker V) (now : String)
    (h : Handler V C A) where
  abbrev pub call_failed_event : C → Result Exn (Option A)
  call_failed_event c = elim h.failed_event [ none ↦ ok none | some f ↦ f c ]

  abbrev pub call_dlq_key : Message → C → Result Exn (Option Bytes)
  call_dlq_key message c = elim h.dlq_key [ none ↦ ok message.key | some f ↦ f c ]

  abbrev pub envelope_of : Message → Exn → Option A → DlqEnvelope A
  envelope_of message error event =
      build_dlq_envelope codec h.of_text message error h.origin now event

  -- the `except ValueError` block, once both callbacks have been called
  unfoldable pub publish_isolated :
      Message → Exn → Result Exn (Option A) → Result Exn (Option Bytes) → Action V C (Unit {0})
  unfolding publish_to_dlq
  publish_isolated message error (err e) key w = (err e, w)
  publish_isolated message error (ok event) (err e) w = (err e, w)
  publish_isolated message error (ok event) (ok key) w =
      publish_to_dlq broker h.dlq_topic key (h.body (envelope_of message error event)) w

  -- the `except ValueError` block
  unfoldable pub isolate : Message → Exn → Action V C (Unit {0})
  unfolding publish_isolated
  isolate message error w =
      publish_isolated message error (call_failed_event w.cell) (call_dlq_key message w.cell) w

  -- what happens after `process()` has ended
  unfoldable pub conclude :
      Message → Result Exn (Unit {0}) × World V C → Result Exn (Unit {0}) × World V C
  unfolding isolate
  conclude message (ok _, w) = commit broker message w
  conclude message (err e, w) =
      if e.is_value_error then (isolate message e >> commit broker message) w else (err e, w)

  unfoldable pub handle_message : Message → Action V C (Unit {0}) → Action V C (Unit {0})
  unfolding conclude
  handle_message message process w = conclude message (process w)
