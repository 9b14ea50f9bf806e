-- ===== src/Notify/Process.antt =====
-- services/notification-worker/worker.py: deliver, with its calls, and handle_one_message.
use Prim.Native.String.{String}
use signalchord.Prelude
use signalchord.Prelude.{List, [], ◌∷◌, ◌++◌, Option, none, some, Result, ok, err}
use signalchord.Kafka.World.{Exn, Message, Broker, World, Action, ◌>>=◌, ◌>>◌, after, pure, raise}
use signalchord.Kafka.Envelope.{Codec, prefix}
use signalchord.Kafka.Poison.{handle_message}
use signalchord.Graph.Json.{Json, text, object, other, Fields, nil}
use signalchord.Events.Values.{Runtime, item, get_item, dict}
use signalchord.Events.Publish.{lift}
use signalchord.Claims.Worker.Process.{plain_handler}
use signalchord.Notify.Deliver.{
  Call, post, patch, Http, targets_url, expo_push_url, expo_message, check_platform, provider_id,
}

abbrev pub dlq_topic : String
dlq_topic = "notification.requested.v1.dlq"

module _ {A V : Type 0} (rt : Runtime A V) (http : Http A) (broker : Broker V) where
  open http use {raised, json, iterate}

  abbrev pub Calls : Type 0 → Type 0
  Calls B = Action V (List (Call A)) B

  abbrev pub answered : Option Exn → Calls (Unit {0})
  answered none w = (ok tt, w)
  answered (some e) w = (err e, w)

  -- the call, and `raise_for_status`; the cell keeps the calls
  abbrev pub call : Call A → Calls (Unit {0})
  call c w = answered (raised (w.cell ++ c ∷ [])) (record w { cell = w.cell ++ c ∷ [] })

  -- `response.json()` of the last call
  abbrev pub response : Calls (Json A)
  response w = lift (json w.cell) w

  -- update_delivery
  abbrev pub update_delivery : Json A → String → List (String × Json A) → Calls (Unit {0})
  update_delivery delivery_id status fields = call (patch delivery_id status fields)

  -- The `try` block up to the update: the provider's identifier of the message.
  unfoldable pub push : Json A → Json A → Calls (Json A)
  unfolding expo_message provider_id
  push payload target = do
    platform ← lift (item "platform" target)
    lift (check_platform rt http platform)
    token ← lift (item "token" target)
    message ← lift (expo_message rt http payload token)
    call (post expo_push_url message)
    body ← response
    data_of ← lift (get_item "data" (object nil) body)
    lift (provider_id rt http data_of)

  -- the `except` block, which raises again
  abbrev pub failed :
      Json A
      → Result Exn (Unit {0}) × World V (List (Call A))
      → Result Exn (Unit {0}) × World V (List (Call A))
  failed delivery_id (ok _, w) = (ok tt, w)
  failed delivery_id (err e, w) =
      after
        (update_delivery delivery_id "failed" (("last_error", text (prefix 2000 e.text)) ∷ []) w)
        (λ _. raise e)

  -- the `try` block and the update in it
  unfoldable pub attempt_push : Json A → Json A → Json A → Calls (Unit {0})
  unfolding push
  attempt_push payload target delivery_id = do
    provider_message_id ← push payload target
    update_delivery delivery_id "delivered" (("provider_message_id", provider_message_id) ∷ [])

  unfoldable pub deliver_target : Json A → Json A → Json A → Calls (Unit {0})
  unfolding attempt_push
  deliver_target payload target delivery_id w =
      failed delivery_id (attempt_push payload target delivery_id w)

  -- the loop over the targets
  unfoldable pub deliver_targets : Json A → List (Json A) → Calls (Unit {0})
  unfolding deliver_target
  deliver_targets payload [] = pure tt
  deliver_targets payload (target ∷ targets) = do
    delivery_id ← lift (item "delivery_id" target)
    deliver_target payload target delivery_id
    deliver_targets payload targets

  unfoldable pub targets_request : Json A → Json A → Result Exn (Fields A)
  targets_request event payload = Prelude.◌>>=◌ (item "tenant_id" event) (λ tenant_id.
      Prelude.◌>>=◌ (item "event_id" event) (λ event_id.
        Prelude.◌>>=◌ (item "alert_id" payload) (λ alert_id. ok (
          dict (("tenant_id", tenant_id) ∷ ("event_id", event_id) ∷ ("alert_id", alert_id) ∷ [])))))

  unfoldable pub deliver : Json A → Calls (Unit {0})
  unfolding deliver_targets targets_request
  deliver event = do
    payload ← lift (item "payload" event)
    request ← lift (targets_request event payload)
    call (post targets_url request)
    body ← response
    found ← lift (get_item "targets" (other (rt.strings [])) body)
    targets ← lift (iterate found)
    deliver_targets payload targets

  unfoldable pub process : Message → Calls (Unit {0})
  unfolding deliver
  process message = do event ← lift (rt.loads message.value); deliver event

  unfoldable pub handle_one_message : Codec → Message → Calls (Unit {0})
  unfolding handle_message process
  handle_one_message codec message =
      handle_message codec broker rt.now (plain_handler rt "notification-worker" dlq_topic) message
        (process message)
