-- ===== src/Kafka/Commits.antt =====
-- Which messages a log commits, and what handle_message and the poll loop do to them
-- (services/python_common/poison_message.py, and `main` of the workers).
use signalchord.Prelude.{
  ℕ, zero, suc, ◌≡◌, refl, sym, ◌∙◌, ap, String, Bool, true, false, Option, none, some, List, [],
  ◌∷◌, ◌++◌, Result, ok, err, if◌then◌else◌, arith,
}
use signalchord.Kafka.World.{
  Exn, Bytes, Message, Effect, Broker, World, Action, after, ◌>>=◌, ◌>>◌, attempt, produce, flush,
  commit, write,
}
use signalchord.Kafka.Envelope.{Codec}
use signalchord.Kafka.Poison.{
  Handler, publish_to_dlq, confirm, await, publish_isolated, call_failed_event, call_dlq_key,
  isolate, conclude, handle_message,
}
use mathlib.Core.List.{append-nil}

module _ {V : Type 0} where
  -- the messages whose offset a log commits, in order
  abbrev pub commits : List (Effect V) → List Message
  commits [] = []
  commits (Effect.produced t k v ∷ xs) = commits xs
  commits (Effect.flushed ∷ xs) = commits xs
  commits (Effect.committed message ∷ xs) = message ∷ commits xs

  pub commits-append : (xs ys : List (Effect V)) → commits (xs ++ ys) ≡ commits xs ++ commits ys
  commits-append [] ys = refl
  commits-append (Effect.produced t k v ∷ xs) ys = commits-append xs ys
  commits-append (Effect.flushed ∷ xs) ys = commits-append xs ys
  commits-append (Effect.committed message ∷ xs) ys = ap (λ z. message ∷ z) (commits-append xs ys)

-- what one message adds to the commits: itself, or nothing if it raised
abbrev pub acked : Message → Result Exn (Unit {0}) → List Message
acked message (ok _) = message ∷ []
acked message (err _) = []

module _ {V C : Type 0} where
  -- an action that commits no offset, whatever else it does
  abbrev pub IsQuiet : {A : Type 0} → Action V C A → Type 0
  IsQuiet m = (w : World V C) → commits (m w).1.log ≡ commits w.log

  pub after-IsQuiet :
      {A B : Type 0} (r : Result Exn A × World V C) (f : A → Action V C B)
      → ((a : A) → IsQuiet (f a))
      → commits (after r f).1.log ≡ commits r.1.log
  after-IsQuiet (ok a, w) f h = h a w
  after-IsQuiet (err e, w) f h = refl

  pub bind-IsQuiet :
      {A B : Type 0} (m : Action V C A) (f : A → Action V C B)
      → IsQuiet m
      → ((a : A) → IsQuiet (f a))
      → IsQuiet (m >>= f)
  bind-IsQuiet m f hm hf w = after-IsQuiet (m w) f hf ∙ hm w

  pub attempt-IsQuiet :
      (o : Option Exn) (x : Effect V) → commits (x ∷ []) ≡ [] → IsQuiet (attempt o x)
  attempt-IsQuiet none x h w =
      commits-append w.log (x ∷ []) ∙ ap (λ z. commits w.log ++ z) h ∙ append-nil (commits w.log)
  attempt-IsQuiet (some e) x h w = refl

  attempt-commits :
      (o : Option Exn) (message : Message) (w : World V C)
      → commits (attempt o (Effect.committed message) w).1.log
        ≡ commits w.log ++ acked message (attempt o (Effect.committed message) w).0
  attempt-commits none message w = commits-append w.log (Effect.committed message ∷ [])
  attempt-commits (some e) message w = sym (append-nil (commits w.log))

  module _ (broker : Broker V) where
    pub flush-IsQuiet : IsQuiet (flush broker)
    flush-IsQuiet w = commits-append w.log (Effect.flushed ∷ []) ∙ append-nil (commits w.log)

    confirm-IsQuiet :
        (pending : ℕ) (o : Option String) (w : World V C) → (confirm broker pending o w).1 ≡ w
    confirm-IsQuiet zero none w = refl
    confirm-IsQuiet zero (some e) w = refl
    confirm-IsQuiet (suc n) o w = ground arith

    await-IsQuiet : IsQuiet (await broker)
    await-IsQuiet w =
        ap (λ v. commits v.log)
          (confirm-IsQuiet (broker.undelivered w.log)
            (broker.delivery_error (write Effect.flushed w).log) (write Effect.flushed w))
        ∙ flush-IsQuiet w

    pub publish_to_dlq-IsQuiet :
        (topic : String) (key : Option Bytes) (body : V)
        → IsQuiet (publish_to_dlq broker topic key body)
    unfolding publish_to_dlq
    publish_to_dlq-IsQuiet topic key body w =
        after-IsQuiet (produce broker topic key body w) (λ _. await broker) (λ _. await-IsQuiet)
        ∙ attempt-IsQuiet (broker.produce_raises w.log) (Effect.produced topic key body) refl w

    -- a quiet action, then the commit
    after-acked :
        (message : Message) (r : Result Exn (Unit {0}) × World V C)
        → commits (after r (λ _. commit broker message)).1.log
          ≡ commits r.1.log ++ acked message (after r (λ _. commit broker message)).0
    after-acked message (ok _, w) = attempt-commits (broker.commit_raises w.log) message w
    after-acked message (err e, w) = sym (append-nil (commits w.log))

module _ {V C A : Type 0} (codec : Codec) (broker : Broker V) (now : String)
    (h : Handler V C A) where
  publish_isolated-IsQuiet :
      (message : Message) (e : Exn) (event : Result Exn (Option A))
      (key : Result Exn (Option Bytes))
      → IsQuiet (publish_isolated codec broker now h message e event key)
  unfolding publish_isolated
  publish_isolated-IsQuiet message e (err x) key w = refl
  publish_isolated-IsQuiet message e (ok event) (err x) w = refl
  publish_isolated-IsQuiet message e (ok event) (ok key) w =
      publish_to_dlq-IsQuiet broker h.dlq_topic key _ w

  isolate-acked :
      (message : Message) (e : Exn) (b : Bool) (w : World V C)
      → let r =
          if b
          then (isolate codec broker now h message e >> commit broker message) w
          else (err e, w) in
        commits r.1.log ≡ commits w.log ++ acked message r.0
  unfolding isolate
  isolate-acked message e true w =
      after-acked broker message (isolate codec broker now h message e w)
      ∙ ap
          (λ z.
            z
            ++ acked message ((isolate codec broker now h message e >> commit broker message) w).0)
          (publish_isolated-IsQuiet message e (call_failed_event codec broker now h w.cell)
            (call_dlq_key codec broker now h message w.cell) w)
  isolate-acked message e false w = sym (append-nil (commits w.log))

  conclude-commits :
      (message : Message) (r : Result Exn (Unit {0}) × World V C)
      → commits (conclude codec broker now h message r).1.log
        ≡ commits r.1.log ++ acked message (conclude codec broker now h message r).0
  unfolding conclude
  conclude-commits message (ok _, w) = attempt-commits (broker.commit_raises w.log) message w
  conclude-commits message (err e, w) = isolate-acked message e e.is_value_error w

  -- If a worker's own handling of a message commits nothing, handle_message commits exactly that
  -- message, once, when it returns, and nothing when it raises, whether the handling, the
  -- publication to the DLQ or the commit raised.
  pub handle_message-commits :
      (message : Message) (process : Action V C (Unit {0}))
      → IsQuiet process
      → (w : World V C)
      → commits (handle_message codec broker now h message process w).1.log
        ≡ commits w.log ++ acked message (handle_message codec broker now h message process w).0
  unfolding handle_message
  handle_message-commits message process q w =
      conclude-commits message (process w)
      ∙ ap (λ z. z ++ acked message (conclude codec broker now h message (process w)).0) (q w)
