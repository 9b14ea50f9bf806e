-- ===== src/Search/Process.antt =====
-- services/search-projector/worker.py: project, as far as it sends its request, and
-- handle_one_message.
use signalchord.Prelude.{List, [], ◌∷◌, ◌++◌, Option, none, some, ok, err}
use signalchord.Kafka.World.{Exn, Message, Broker, Action, ◌>>=◌}
use signalchord.Kafka.Envelope.{Codec}
use signalchord.Kafka.Poison.{handle_message}
use signalchord.Graph.Json.{Json}
use signalchord.Events.Values.{Runtime}
use signalchord.Events.Publish.{lift}
use signalchord.Claims.Worker.Process.{plain_handler}
use signalchord.Entities.Worker.Process.{dlq_of}
use signalchord.Search.Project.{Storage, Request, request_of}

-- Whether the search index raises instead of doing what is requested, after what it has done.
pub record Client (A : Type 0) : Type 0 where
  pub request_raises : List (Request A) → Request A → Option Exn

module _ {A V : Type 0} (rt : Runtime A V) (storage : Storage A) (client : Client A)
    (broker : Broker V) where
  abbrev pub answered : Option Exn → Request A → Action V (List (Request A)) (Unit {0})
  answered (some e) r w = (err e, w)
  answered none r w = (ok tt, record w { cell = w.cell ++ r ∷ [] })

  -- one call of the client; the cell keeps what the index has done
  abbrev pub send : Option (Request A) → Action V (List (Request A)) (Unit {0})
  send none w = (ok tt, w)
  send (some r) w = answered (client.request_raises w.cell r) r w

  unfoldable pub project : Json A → Action V (List (Request A)) (Unit {0})
  unfolding request_of
  project event = do r ← lift (request_of rt storage event); send r

  unfoldable pub process : Message → Action V (List (Request A)) (Unit {0})
  unfolding project
  process message = do event ← lift (rt.loads message.value); project event

  unfoldable pub handle_one_message : Codec → Message → Action V (List (Request A)) (Unit {0})
  unfolding handle_message process
  handle_one_message codec message =
      handle_message codec broker rt.now
        (plain_handler rt "search-projector" (dlq_of message.topic)) message (process message)
