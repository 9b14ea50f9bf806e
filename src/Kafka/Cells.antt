-- ===== src/Kafka/Cells.antt =====
-- What handle_message (services/python_common/poison_message.py) and the poll loop do to the state
-- that a worker shares with its closures.
use signalchord.Prelude.{
  ℕ, zero, suc, String, Bool, true, false, Option, none, some, List, [], ◌∷◌, Result, ok, err,
  if◌then◌else◌, arith,
}
use signalchord.Kafka.World.{
  Exn, Bytes, Message, Effect, Broker, World, Action, after, ◌>>=◌, ◌>>◌, attempt, produce, commit,
  write,
}
use signalchord.Kafka.Envelope.{Codec}
use signalchord.Kafka.Poison.{
  Handler, publish_to_dlq, confirm, await, publish_isolated, call_failed_event, call_dlq_key,
  isolate, conclude, handle_message,
}
use signalchord.Kafka.Loop.{Poll, nothing, transport, received, poll_step, poll_loop}

module _ {V C : Type 0} (P : C → Type 0) where
  -- an action that keeps a property of the shared state, also where it raises
  abbrev pub Keeps : {A : Type 0} → Action V C A → Type 0
  Keeps m = (w : World V C) → P w.cell → P (m w).1.cell

  pub after-Keeps :
      {A B : Type 0} (r : Result Exn A × World V C) (f : A → Action V C B)
      → P r.1.cell
      → ((a : A) → Keeps (f a))
      → P (after r f).1.cell
  after-Keeps (ok a, w) f p h = h a w p
  after-Keeps (err e, w) f p h = p

  pub bind-Keeps :
      {A B : Type 0} (m : Action V C A) (f : A → Action V C B)
      → Keeps m
      → ((a : A) → Keeps (f a))
      → Keeps (m >>= f)
  bind-Keeps m f hm hf w p = after-Keeps (m w) f (hm w p) hf

  pub attempt-Keeps : (o : Option Exn) (x : Effect V) → Keeps (attempt o x)
  attempt-Keeps none x w p = p
  attempt-Keeps (some e) x w p = p

  module _ (broker : Broker V) where
    confirm-Keeps : (pending : ℕ) (o : Option String) → Keeps (confirm broker pending o)
    confirm-Keeps zero none w p = p
    confirm-Keeps zero (some e) w p = p
    confirm-Keeps (suc n) o w p = ground arith

    publish_to_dlq-Keeps :
        (topic : String) (key : Option Bytes) (body : V)
        → Keeps (publish_to_dlq broker topic key body)
    unfolding publish_to_dlq
    publish_to_dlq-Keeps topic key body w p =
        after-Keeps (produce broker topic key body w) (λ _. await broker)
          (attempt-Keeps (broker.produce_raises w.log) (Effect.produced topic key body) w p)
          (λ _ v q.
            confirm-Keeps (broker.undelivered v.log)
              (broker.delivery_error (write Effect.flushed v).log) (write Effect.flushed v) q)

    commit-Keeps : (message : Message) → Keeps (commit broker message)
    commit-Keeps message w p =
        attempt-Keeps (broker.commit_raises w.log) (Effect.committed message) w p

    module _ {A : Type 0} (codec : Codec) (now : String) (h : Handler V C A) where
      publish_isolated-Keeps :
          (message : Message) (e : Exn) (event : Result Exn (Option A))
          (key : Result Exn (Option Bytes))
          → Keeps (publish_isolated codec broker now h message e event key)
      unfolding publish_isolated
      publish_isolated-Keeps message e (err x) key w p = p
      publish_isolated-Keeps message e (ok event) (err x) w p = p
      publish_isolated-Keeps message e (ok event) (ok key) w p =
          publish_to_dlq-Keeps h.dlq_topic key _ w p

      isolate-Keeps :
          (message : Message) (e : Exn) (b : Bool) (w : World V C)
          → P w.cell
          → P
              (if b
                then (isolate codec broker now h message e >> commit broker message) w
                else (err e, w)).1.cell
      unfolding isolate
      isolate-Keeps message e true w p =
          after-Keeps (isolate codec broker now h message e w) (λ _. commit broker message)
            (publish_isolated-Keeps message e (call_failed_event codec broker now h w.cell)
              (call_dlq_key codec broker now h message w.cell) w p)
            (λ _. commit-Keeps message)
      isolate-Keeps message e false w p = p

      conclude-Keeps :
          (message : Message) (r : Result Exn (Unit {0}) × World V C)
          → P r.1.cell
          → P (conclude codec broker now h message r).1.cell
      unfolding conclude
      conclude-Keeps message (ok _, w) p = commit-Keeps message w p
      conclude-Keeps message (err e, w) p = isolate-Keeps message e e.is_value_error w p

      pub handle_message-Keeps :
          (message : Message) (process : Action V C (Unit {0}))
          → Keeps process
          → Keeps (handle_message codec broker now h message process)
      unfolding handle_message
      handle_message-Keeps message process k w p = conclude-Keeps message (process w) (k w p)

  module _ (handle_one_message : Message → Action V C (Unit {0}))
      (k : (message : Message) → Keeps (handle_one_message message)) where
    poll_step-Keeps : (p : Poll) → Keeps (poll_step handle_one_message p)
    poll_step-Keeps nothing w q = q
    poll_step-Keeps (transport text) w q = q
    poll_step-Keeps (received message) w q = k message w q

    pub poll_loop-Keeps : (ps : List Poll) → Keeps (poll_loop handle_one_message ps)
    unfolding poll_loop
    poll_loop-Keeps [] w q = q
    poll_loop-Keeps (p ∷ ps) w q =
        after-Keeps (poll_step handle_one_message p w) (λ _. poll_loop handle_one_message ps)
          (poll_step-Keeps p w q) (λ _. poll_loop-Keeps ps)
