-- ===== src/Kafka/Tests.antt =====
-- Concrete inputs for services/python_common/poison_message.py and for the poll loop: a codec, a
-- broker on which all goes well, a worker, a message.
use signalchord.Prelude.{
  ℕ, zero, suc, ◌+◌, ◌≡◌, refl, ap, ◌∙◌, String, true, Option, none, some, List, [], ◌∷◌, ok, err,
  if◌then◌else◌, ◌=ˢ◌, arith,
}
use signalchord.Kafka.World.{Exn, Bytes, Message, Broker, World, Action}
use signalchord.Kafka.Envelope.{Codec, restore, decode_bytes, restore-decode_bytes}
use signalchord.Kafka.Poison.{
  Handler, handle_message, conclude, isolate, publish_isolated, publish_to_dlq,
}
use signalchord.Kafka.Loop.{Poll, nothing, transport, received, poll_loop}
use signalchord.Kafka.Commits.{commits, acked, handle_message-commits}
use signalchord.Kafka.Delivery.{IsDelivered, poll_loop-handle_message}
use signalchord.Kafka.Progress.{poll_loop-returns}
use signalchord.Kafka.Isolation.{IsIsolated, handle_message-IsIsolated}

-- A code for bytes in place of base64: each byte in unary.
abbrev pub unary : ℕ → String → String
unary zero s = String.◌∷◌ "b" s
unary (suc n) s = String.◌∷◌ "a" (unary n s)

abbrev pub unary_encode : Bytes → String
unary_encode [] = String.[]
unary_encode (n ∷ ns) = unary n (unary_encode ns)

abbrev pub unary_decode : ℕ → String → Bytes
unary_decode k String.[] = []
unary_decode k (String.◌∷◌ c s) =
    if String.◌∷◌ c String.[] =ˢ "a" then unary_decode (suc k) s else k ∷ unary_decode 0 s

unary_decode-unary :
    (k n : ℕ) (s : String) → unary_decode k (unary n s) ≡ (n + k) ∷ unary_decode 0 s
unary_decode-unary k zero s = ap (λ z. z ∷ unary_decode 0 s) (omega arith)
unary_decode-unary k (suc n) s =
    unary_decode-unary (suc k) n s ∙ ap (λ z. z ∷ unary_decode 0 s) (omega arith)

pub unary_lossless : (b : Bytes) → unary_decode 0 (unary_encode b) ≡ b
unary_lossless [] = refl
unary_lossless (n ∷ ns) =
    unary_decode-unary 0 n (unary_encode ns)
    ∙ ap (λ z. z ∷ unary_decode 0 (unary_encode ns)) (omega arith)
    ∙ ap (λ z. n ∷ z) (unary_lossless ns)

-- only the empty text is UTF-8 here
abbrev pub decode_empty : Bytes → Option String
decode_empty [] = some ""
decode_empty (n ∷ ns) = none

pub decode_empty_lossless : (b : Bytes) (t : String) → decode_empty b ≡ some t → [] ≡ b
decode_empty_lossless [] t e = refl
decode_empty_lossless (n ∷ ns) t e = cc

abbrev pub codec : Codec
codec = record {
  decode_utf8 = decode_empty;
  encode_utf8 = λ t. [];
  b64encode = unary_encode;
  b64decode = unary_decode 0;
  utf8_lossless = decode_empty_lossless;
  b64_lossless = unary_lossless;
}

abbrev pub broker : Broker ℕ
broker = record {
  produce_raises = λ log. none;
  commit_raises = λ log. none;
  undelivered = λ log. 0;
  delivery_error = λ log. none;
}

-- a worker that keeps no state, whose envelopes are all the body 7
abbrev worker : Handler ℕ (Unit {0}) (Option String)
worker = record {
  origin = "worker";
  dlq_topic = "in.dlq";
  failed_event = none;
  dlq_key = none;
  of_text = λ t. t;
  body = λ envelope. 7;
}

abbrev pub sample : Message
sample = record {
  topic = some "in";
  partition = some 0;
  offset = some 5;
  key = some (1 ∷ []);
  value = some (2 ∷ 3 ∷ []);
  headers = none;
}

abbrev value_error : Exn
value_error = record { is_value_error = true; type_name = "ValueError"; text = "bad event" }

abbrev start : World ℕ (Unit {0})
start = record { log = []; cell = tt }

-- the handling of a poison message
abbrev refuse : Message → Action ℕ (Unit {0}) (Unit {0})
refuse message w = (err value_error, w)

restore-decode_bytes_example :
    restore codec
      (decode_bytes codec (some (2 ∷ 3 ∷ []))).0
      (decode_bytes codec (some (2 ∷ 3 ∷ []))).1
    ≡ some (2 ∷ 3 ∷ [])
restore-decode_bytes_example = restore-decode_bytes codec (some (2 ∷ 3 ∷ []))

handle_message-commits_example :
    commits (handle_message codec broker "now" worker sample (refuse sample) start).1.log
    ≡ acked sample (handle_message codec broker "now" worker sample (refuse sample) start).0
handle_message-commits_example =
    handle_message-commits codec broker "now" worker sample (refuse sample) (λ w. refl) start

sample_polls : List Poll
sample_polls = nothing ∷ received sample ∷ transport "down" ∷ received sample ∷ []

poll_loop-handle_message_example :
    let r =
      poll_loop
        (λ message. handle_message codec broker "now" worker message (refuse message))
        sample_polls
        start in
    IsDelivered [] sample_polls r.0 (commits r.1.log)
poll_loop-handle_message_example =
    poll_loop-handle_message codec broker "now" worker refuse (λ message w. refl) sample_polls start

isolated : (handle_message codec broker "now" worker sample (refuse sample) start).0 ≡ ok tt
unfolding handle_message conclude isolate publish_isolated publish_to_dlq
isolated = refl

handle_message-IsIsolated_example :
    (value_error.is_value_error ≡ true)
    × IsIsolated codec broker "now" worker sample value_error start
        (handle_message codec broker "now" worker sample (refuse sample) start).1.log
handle_message-IsIsolated_example =
    handle_message-IsIsolated codec broker "now" worker sample (refuse sample) value_error start
      start refl isolated

poll_loop-returns_example :
    let r =
      poll_loop
        (λ message. handle_message codec broker "now" worker message (refuse message))
        (received sample ∷ nothing ∷ received sample ∷ [])
        start in
    (r.0 ≡ ok tt) × (commits r.1.log ≡ sample ∷ sample ∷ [])
poll_loop-returns_example =
    poll_loop-returns codec broker "now" worker (λ log. (refl, refl, refl, refl)) refuse
      (λ message w. refl) (λ c. ((none, refl), (λ message. (message.key, refl))))
      (λ message w. refl) (received sample ∷ nothing ∷ received sample ∷ []) start
      (tt, (tt, (tt, tt)))
