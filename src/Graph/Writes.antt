-- ===== src/Graph/Writes.antt =====
-- What the projector (services/graph-projector/worker.py) ever writes to the graph.
use signalchord.Prelude.{
  ◌≡◌, refl, String, Option, none, some, List, [], ◌∷◌, ◌++◌, Result, ok, err, Post, All,
  All-append, subst,
}
use signalchord.Prelude
use signalchord.Kafka.World.{Exn, Message, Broker, World, Action, ◌>>=◌, Bytes, produce}
use signalchord.Kafka.Envelope.{Codec}
use signalchord.Kafka.Loop.{Poll, poll_loop}
use signalchord.Kafka.Cells.{
  Keeps, after-Keeps, bind-Keeps, attempt-Keeps, handle_message-Keeps, poll_loop-Keeps,
}
use signalchord.Kafka.World.{Effect}
use signalchord.Events.Publish.{lift}
use signalchord.Graph.Json.{Json, text, object, other, Fields, get}
use signalchord.Graph.Statement.{PermanentMutationError, Statement, parse_event, build_statement}
use signalchord.Graph.Scope.{IsScopedTo, Anything, build_statement-IsScopedTo}
use signalchord.Graph.Projector.{
  Projector, Platform, raising, remember, applied, execute_write, stable_id_of, publish, process,
  process_source, apply_statement, announce, handler, forget, handle_one_message, completed_topic,
}

Post-any :
    {B : Type 0} (r : Prelude.Result PermanentMutationError B)
    → Post (λ _. Unit {0}) (λ _. Unit {0}) r
Post-any (ok b) = tt
Post-any (err e) = tt

module _ {A V : Type 0} (platform : Platform A V) (broker : Broker V) where
  open platform use {strip, loads}

  -- a statement for some tenant, with one of the queries written out in Queries
  abbrev pub IsScoped : Statement A → Type 0
  IsScoped s = (tenant : String) × IsScopedTo strip loads tenant s

  -- all that the database has applied is such statements
  abbrev pub IsClean : Projector A → Type 0
  IsClean c = All IsScoped c.written

  applied-Keeps :
      (o : Option Exn) (s : Statement A) → IsScoped s → Keeps IsClean (applied platform broker o s)
  applied-Keeps none s h w p = All-append IsScoped w.cell.written (s ∷ []) p (h, tt)
  applied-Keeps (some e) s h w p = p

  stable_id_of-Keeps : (o : Option (Json A)) → Keeps IsClean (stable_id_of platform broker o)
  stable_id_of-Keeps none w p = p
  stable_id_of-Keeps (some (text s)) w p = p
  stable_id_of-Keeps (some (object d)) w p = p
  stable_id_of-Keeps (some (other a)) w p = p

  encoded-Keeps :
      (r : Result Exn Bytes) (topic : String) (value : V)
      → Keeps IsClean (lift r >>= (λ key. produce broker topic (some key) value))
  encoded-Keeps (ok key) topic value w p =
      attempt-Keeps IsClean (broker.produce_raises w.log) (Effect.produced topic (some key) value) w
        p
  encoded-Keeps (err e) topic value w p = p

  announce-Keeps :
      (source : Fields A) (stable_id : String)
      → Keeps IsClean (announce platform broker source stable_id)
  unfolding announce
  announce-Keeps source stable_id w p =
      after-Keeps IsClean (publish platform broker completed_topic stable_id _ w) _
        (encoded-Keeps (platform.encode stable_id) completed_topic _ w p) (λ _ v q. q)

  apply_statement-Keeps :
      (source : Fields A) (s : Statement A)
      → IsScoped s
      → Keeps IsClean (apply_statement platform broker source s)
  unfolding apply_statement
  apply_statement-Keeps source s h w p =
      after-Keeps IsClean (execute_write platform broker s w) _
        (applied-Keeps (platform.write_raises w.cell.written s) s h w p)
        (λ _.
          bind-Keeps IsClean (stable_id_of platform broker (get "stable_id" s.parameters)) _
            (stable_id_of-Keeps (get "stable_id" s.parameters)) (announce-Keeps source))

  raised-Keeps :
      {B : Type 0} {Q : B → Type 0} (r : Prelude.Result PermanentMutationError B)
      (f : B → Action V (Projector A) (Unit {0}))
      → Post Q (Anything strip loads) r
      → ((b : B) → Q b → Keeps IsClean (f b))
      → Keeps IsClean (raising platform broker r >>= f)
  raised-Keeps (ok b) f q h w p = h b q w p
  raised-Keeps (err e) f q h w p = p

  process_source-Keeps : (source : Fields A) → Keeps IsClean (process_source platform broker source)
  unfolding process_source
  process_source-Keeps source w p =
      raised-Keeps (build_statement strip loads source) (apply_statement platform broker source)
        (build_statement-IsScopedTo strip loads source)
        (λ s scoped. apply_statement-Keeps source s (scoped.0, scoped.2))
        (remember platform broker source w).1 p

  process-Keeps : (message : Message) → Keeps IsClean (process platform broker message)
  unfolding process
  process-Keeps message =
      raised-Keeps (parse_event strip loads message.value) (process_source platform broker)
        (Post-any (parse_event strip loads message.value)) (λ source _. process_source-Keeps source)

  handle_one_message-Keeps :
      (codec : Codec) (message : Message)
      → Keeps IsClean (handle_one_message platform broker codec message)
  unfolding handle_one_message
  handle_one_message-Keeps codec message w p =
      handle_message-Keeps IsClean broker codec platform.now (handler platform broker) message
        (process platform broker message) (process-Keeps message) (forget platform broker w).1 p

  -- Whatever messages the projector's loop receives, and whatever the broker and the database
  -- answer, also where the loop ends by an exception: if every statement applied so far is for some
  -- tenant, by its parameters and the properties that it writes, and has one of the queries written
  -- out in Queries, which key the nodes by the tenant, so has every statement applied after it.
  pub poll_loop-IsClean :
      (codec : Codec) (ps : List Poll) (w : World V (Projector A))
      → IsClean w.cell
      → IsClean (poll_loop (handle_one_message platform broker codec) ps w).1.cell
  poll_loop-IsClean codec =
      poll_loop-Keeps IsClean (handle_one_message platform broker codec)
        (handle_one_message-Keeps codec)
