-- ===== src/Search/Writes.antt =====
-- What services/search-projector/worker.py ever does to the search index.
use signalchord.Prelude.{
  ◌≡◌, refl, Option, none, some, List, [], ◌∷◌, All, All-append, Result, ok, err,
}
use signalchord.Kafka.World.{Exn, Message, Broker, World, ◌>>=◌}
use signalchord.Kafka.Envelope.{Codec}
use signalchord.Kafka.Loop.{Poll, poll_loop}
use signalchord.Kafka.Cells.{Keeps, handle_message-Keeps, poll_loop-Keeps}
use signalchord.Graph.Json.{Json}
use signalchord.Events.Values.{Runtime}
use signalchord.Events.Publish.{lift}
use signalchord.Claims.Worker.Process.{plain_handler}
use signalchord.Entities.Worker.Process.{dlq_of}
use signalchord.Search.Project.{Storage, Request, request_of}
use signalchord.Search.Process.{Client, answered, send, project, process, handle_one_message}
use signalchord.Search.Scope.{IsScopedTo, request_of-IsScoped}

module _ {A V : Type 0} (rt : Runtime A V) (storage : Storage A) (client : Client A)
    (broker : Broker V) where
  -- all that the index has done was for some tenant
  abbrev pub IsClean : List (Request A) → Type 0
  IsClean rs = All (λ r. (tenant_id : Json A) × IsScopedTo rt storage tenant_id r) rs

  answered-Keeps :
      (o : Option Exn) (r : Request A) (tenant_id : Json A)
      → IsScopedTo rt storage tenant_id r
      → Keeps IsClean (answered rt storage client broker o r)
  answered-Keeps none r t h w p = All-append _ w.cell (r ∷ []) p ((t, h), tt)
  answered-Keeps (some e) r t h w p = p

  send-Keeps :
      (o : Option (Request A))
      → ((r : Request A) → o ≡ some r → (t : Json A) × IsScopedTo rt storage t r)
      → Keeps IsClean (send rt storage client broker o)
  send-Keeps none h w p = p
  send-Keeps (some r) h w p =
      let (t, scoped) = h r refl in answered-Keeps (client.request_raises w.cell r) r t scoped w p

  lift_bind-Keeps :
      (r : Result Exn (Option (Request A)))
      → ((o : Option (Request A))
          → r ≡ ok o
          → (q : Request A) → o ≡ some q
          → (t : Json A) × IsScopedTo rt storage t q)
      → Keeps IsClean (lift r >>= send rt storage client broker)
  lift_bind-Keeps (ok o) h w p = send-Keeps o (h o refl) w p
  lift_bind-Keeps (err e) h w p = p

  project-Keeps : (event : Json A) → Keeps IsClean (project rt storage client broker event)
  unfolding project
  project-Keeps event =
      lift_bind-Keeps (request_of rt storage event) (request_of-IsScoped rt storage event)

  lift_event-Keeps :
      (r : Result Exn (Json A)) → Keeps IsClean (lift r >>= project rt storage client broker)
  lift_event-Keeps (ok event) w p = project-Keeps event w p
  lift_event-Keeps (err e) w p = p

  handle_one_message-Keeps :
      (codec : Codec) (message : Message)
      → Keeps IsClean (handle_one_message rt storage client broker codec message)
  unfolding handle_one_message process
  handle_one_message-Keeps codec message =
      handle_message-Keeps IsClean broker codec rt.now
        (plain_handler rt "search-projector" (dlq_of message.topic)) message
        (process rt storage client broker message) (lift_event-Keeps (rt.loads message.value))

  -- Whatever messages the loop of the search projector receives, and whatever the broker and the
  -- index answer: if all that the index has done so far was for some tenant, so is all that it does
  -- after it.
  pub search_loop-IsClean :
      (codec : Codec) (ps : List Poll) (w : World V (List (Request A)))
      → IsClean w.cell
      → IsClean (poll_loop (handle_one_message rt storage client broker codec) ps w).1.cell
  search_loop-IsClean codec =
      poll_loop-Keeps IsClean (handle_one_message rt storage client broker codec)
        (handle_one_message-Keeps codec)
