-- ===== src/Kafka/Envelope.antt =====
-- services/python_common/poison_message.py: _decode_bytes, _decode_headers and build_dlq_envelope.
use Prim.Native.String.{String}
use signalchord.Prelude.{
  ℕ, zero, suc, ◌≡◌, refl, ap, Option, none, some, List, [], ◌∷◌, ◌=ˢ◌, if◌then◌else◌,
}
use signalchord.Kafka.World.{Exn, Bytes, Message}

-- The codecs of the standard library: `decode("utf-8")`, which may fail, `b64encode`, and their
-- inverses, by which a reader of the envelope gets the bytes back.
pub record Codec : Type 0 where
  pub decode_utf8 : Bytes → Option String
  pub encode_utf8 : String → Bytes
  pub b64encode : Bytes → String
  pub b64decode : String → Bytes
  pub utf8_lossless : (b : Bytes) (t : String) → decode_utf8 b ≡ some t → encode_utf8 t ≡ b
  pub b64_lossless : (b : Bytes) → b64decode (b64encode b) ≡ b

abbrev pub max_error_message_length : ℕ
max_error_message_length = 500

-- `s[:n]`
unfoldable pub prefix : ℕ → String → String
prefix zero s = String.[]
prefix (suc n) String.[] = String.[]
prefix (suc n) (String.◌∷◌ c s) = String.◌∷◌ c (prefix n s)

pub record Header : Type 0 where
  pub name : String
  pub value : String
  pub encoding : String

-- DlqEnvelope; `Any`, the type of a failed event, is a parameter
pub record DlqEnvelope (A : Type 0) : Type 0 where
  pub origin : String
  pub error_type : String
  pub error : String
  pub failed_at : String
  pub source_topic : Option String
  pub source_partition : Option ℕ
  pub source_offset : Option ℕ
  pub key : Option String
  pub key_encoding : String
  pub headers : List Header
  pub failed_event : A
  pub value_encoding : String

module _ (codec : Codec) where
  open codec use {decode_utf8, b64encode}

  abbrev decode_or_encode : Bytes → Option String → Option String × String
  decode_or_encode b none = (some (b64encode b), "base64")
  decode_or_encode b (some t) = (some t, "utf-8")

  unfoldable pub decode_bytes : Option Bytes → Option String × String
  decode_bytes none = (none, "utf-8")
  decode_bytes (some b) = decode_or_encode b (decode_utf8 b)

  -- `value or ""`
  abbrev or_empty : Option String → String
  or_empty none = ""
  or_empty (some t) = t

  decode_header_list : List (String × Option Bytes) → List Header
  decode_header_list [] = []
  decode_header_list ((name, raw) ∷ rest) =
      record { name = name; value = or_empty (decode_bytes raw).0; encoding = (decode_bytes raw).1 }
      ∷ decode_header_list rest

  unfoldable pub decode_headers : Option (List (String × Option Bytes)) → List Header
  unfolding decode_header_list
  decode_headers none = []
  decode_headers (some hs) = decode_header_list hs

  -- `failed_event if failed_event is not None else value_text`; `of_text` is a str or None as a
  -- value of JSON
  unfoldable pub build_dlq_envelope :
      {A : Type 0}
      → (Option String → A)
      → Message
      → Exn
      → String
      → String
      → Option A
      → DlqEnvelope A
  build_dlq_envelope of_text message error origin now failed_event = record {
    origin = origin;
    error_type = error.type_name;
    error = prefix max_error_message_length error.text;
    failed_at = now;
    source_topic = message.topic;
    source_partition = message.partition;
    source_offset = message.offset;
    key = (decode_bytes message.key).0;
    key_encoding = (decode_bytes message.key).1;
    headers = decode_headers message.headers;
    failed_event = elim failed_event [
      | none ↦ of_text (decode_bytes message.value).0
      | some event ↦ event
    ];
    value_encoding = (decode_bytes message.value).1;
  }

  -- what a reader of the envelope makes of a text and its encoding
  abbrev pub restore : Option String → String → Option Bytes
  restore none encoding = none
  restore (some t) encoding =
      if encoding =ˢ "base64" then some (codec.b64decode t) else some (codec.encode_utf8 t)

  restore-decode_or_encode :
      (b : Bytes) (o : Option String)
      → decode_utf8 b ≡ o
      → restore (decode_or_encode b o).0 (decode_or_encode b o).1 ≡ some b
  restore-decode_or_encode b none e = ap some (codec.b64_lossless b)
  restore-decode_or_encode b (some t) e = ap some (codec.utf8_lossless b t e)

  -- _decode_bytes loses nothing: from the text and the name of its encoding, the key or the value
  -- of the message is had back, whether it is UTF-8, other bytes or absent.
  pub restore-decode_bytes : (b : Option Bytes) → restore (decode_bytes b).0 (decode_bytes b).1 ≡ b
  unfolding decode_bytes
  restore-decode_bytes none = refl
  restore-decode_bytes (some b) = restore-decode_or_encode b (decode_utf8 b) refl
