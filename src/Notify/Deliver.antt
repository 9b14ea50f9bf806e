-- ===== src/Notify/Deliver.antt =====
-- services/notification-worker/worker.py: expo_message, update_delivery and deliver.
use Prim.Native.String.{String, ◌++◌}
use signalchord.Prelude.{
  Bool, true, false, Option, none, some, List, [], ◌∷◌, Result, ok, err, ◌=ˢ◌, contains,
  if◌then◌else◌, ◌>>=◌,
}
use signalchord.Kafka.World.{Exn}
use signalchord.Graph.Json.{Json, text, object, other, Fields, get}
use signalchord.Events.Values.{Runtime, item, get_item, dict, value_error, type_error}

-- A call of the HTTP client: a POST of a JSON body, or the PATCH of a delivery with a status and more
-- fields, as update_delivery makes it. The headers, with the internal token, are left out.
pub data Call (A : Type 0) : Type 0 where
  post : String → Fields A → Call A
  patch : Json A → String → List (String × Json A) → Call A

-- Outside the worker: what the last of the calls so far answers, as an exception of the call or of
-- `raise_for_status` and as its JSON; iterating a value; what can be a member of a set; truth values;
-- and `int(value) >= 2`.
pub record Http (A : Type 0) : Type 0 where
  pub raised : List (Call A) → Option Exn
  pub json : List (Call A) → Result Exn (Json A)
  pub iterate : Json A → Result Exn (List (Json A))
  pub is_hashable : A → Bool
  pub is_true : Json A → Bool
  pub is_severe : Json A → Result Exn Bool

-- below CONTROL_PLANE_URL
abbrev pub targets_url : String
targets_url = "/internal/v1/notification_targets"

-- unless the environment names another
abbrev pub expo_push_url : String
expo_push_url = "https://exp.host/--/api/v2/push/send"

abbrev pub platforms : List String
platforms = "expo" ∷ "ios" ∷ "android" ∷ []

abbrev pub runtime_error : String → Exn
runtime_error message = record {
  is_value_error = false;
  type_name = "RuntimeError";
  text = message;
}

-- a subclass of ValueError
abbrev pub device_not_registered : String → Exn
device_not_registered message = record {
  is_value_error = true;
  type_name = "ExpoDeviceNotRegisteredError";
  text = message;
}

module _ {A V : Type 0} (rt : Runtime A V) (http : Http A) where
  open rt use {null, number, str_of}
  open http use {is_hashable, is_true, is_severe}

  abbrev pub get_or_null : String → Json A → Result Exn (Json A)
  get_or_null key value = get_item key (other null) value

  -- `value or default`
  abbrev pub or_else : Json A → Json A → Json A
  or_else value default = if is_true value then value else default

  abbrev pub priority : Bool → String
  priority severe = if severe then "high" else "default"

  unfoldable pub expo_message : Json A → Json A → Result Exn (Fields A)
  expo_message payload token = do
    title ← item "title" payload
    summary ← get_or_null "summary" payload
    severity_code ← get_item "severity_code" (other (number 0)) payload
    severe ← is_severe severity_code
    alert_id ← item "alert_id" payload
    stable_alert_id ← get_or_null "stable_alert_id" payload
    ok (
        dict (
          ("to", token)
          ∷ ("title", title)
          ∷ ("body", or_else summary (text "A SignalChord alert requires your attention."))
          ∷ ("priority", text (priority severe))
          ∷ ("channelId", text "alerts")
          ∷ (
            "data",
            object (
                dict (
                  ("alert_id", alert_id)
                  ∷ ("stable_alert_id", stable_alert_id)
                  ∷ ("deep_link", text ("signalchord://alert/" ++ str_of alert_id))
                  ∷ [])),
          )
          ∷ []))

  abbrev pub unsupported : Json A → Exn
  unsupported platform = value_error ("unsupported notification platform " ++ str_of platform)

  -- `if target["platform"] not in {...}: raise ValueError(...)`
  abbrev pub check_platform : Json A → Result Exn (Unit {0})
  check_platform (text p) = if contains platforms p then ok tt else err (unsupported (text p))
  check_platform (object d) = err type_error
  check_platform (other a) = if is_hashable a then err (unsupported (other a)) else err type_error

  abbrev pub or_null : Option (Json A) → Json A
  or_null none = other null
  or_null (some v) = v

  -- `value.get(key) if isinstance(value, dict) else None`
  abbrev pub dict_get : String → Json A → Json A
  dict_get key (object d) = or_null (get key d)
  dict_get key (text s) = other null
  dict_get key (other a) = other null

  abbrev pub is_unregistered : Json A → Bool
  is_unregistered (text code) = code =ˢ "DeviceNotRegistered"
  is_unregistered (object d) = false
  is_unregistered (other a) = false

  -- the exception for a message of the provider that is not empty
  abbrev pub provider_exception : Json A → Json A → Exn
  provider_exception data_of provider_error =
      if is_unregistered (dict_get "error" (dict_get "details" data_of))
      then device_not_registered (str_of provider_error)
      else runtime_error (str_of provider_error)

  -- the provider's message id, or the exception that it answers with
  unfoldable pub provider_id : Json A → Result Exn (Json A)
  provider_id data_of =
      let provider_error = dict_get "message" data_of in
      if is_true provider_error
      then err (provider_exception data_of provider_error)
      else ok (dict_get "id" data_of)
