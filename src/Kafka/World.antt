-- ===== src/Kafka/World.antt =====
-- What a worker does to the outside: it produces, flushes and commits, in an order that is kept as
-- a log. The client library confluent_kafka and the broker are a parameter: each answer is any
-- function of the log so far.
use signalchord.Prelude.{ℕ, String, Bool, Option, none, some, List, [], ◌∷◌, ◌++◌, Result, ok, err}

-- An exception: whether `except ValueError` catches it, its class and its text.
pub record Exn : Type 0 where
  pub is_value_error : Bool
  pub type_name : String
  pub text : String

abbrev pub Bytes : Type 0
Bytes = List ℕ

pub record Message : Type 0 where
  pub topic : Option String
  pub partition : Option ℕ
  pub offset : Option ℕ
  pub key : Option Bytes
  pub value : Option Bytes
  pub headers : Option (List (String × Option Bytes))

-- A record that a worker produces: to a topic, under a key, with a body of the worker's type.
pub data Effect (V : Type 0) : Type 0 where
  produced : String → Option Bytes → V → Effect V
  flushed : Effect V
  committed : Message → Effect V

-- `produce` and `commit` may raise; `flush` answers how many messages are still undelivered, and
-- with it the delivery callback has reported an error or none.
pub record Broker (V : Type 0) : Type 0 where
  pub produce_raises : List (Effect V) → Option Exn
  pub commit_raises : List (Effect V) → Option Exn
  pub undelivered : List (Effect V) → ℕ
  pub delivery_error : List (Effect V) → Option String

-- The log, and what the closures of a worker share, such as `state` in the graph projector.
pub record World (V C : Type 0) : Type 0 where
  pub log : List (Effect V)
  pub cell : C

-- What was done before a raise stays done, so the world comes back beside the exception too.
abbrev pub Action : Type 0 → Type 0 → Type 0 → Type 0
Action V C A = World V C → Result Exn A × World V C

module _ {V C : Type 0} where
  abbrev pub after :
      {A B : Type 0} → Result Exn A × World V C → (A → Action V C B) → Result Exn B × World V C
  after (ok a, w) f = f a w
  after (err e, w) f = (err e, w)

  infixl 5 ◌>>=◌ ◌>>◌
  abbrev pub ◌>>=◌ : {A B : Type 0} → Action V C A → (A → Action V C B) → Action V C B
  ◌>>=◌ m f w = after (m w) f

  abbrev pub ◌>>◌ : {B : Type 0} → Action V C (Unit {0}) → Action V C B → Action V C B
  m >> k = m >>= λ _. k

  abbrev pub pure : {A : Type 0} → A → Action V C A
  pure a w = (ok a, w)

  abbrev pub raise : {A : Type 0} → Exn → Action V C A
  raise e w = (err e, w)

  abbrev pub write : Effect V → World V C → World V C
  write x w = record w { log = w.log ++ x ∷ [] }

  -- an effect that takes place unless the client library raises
  abbrev pub attempt : Option Exn → Effect V → Action V C (Unit {0})
  attempt none x w = (ok tt, write x w)
  attempt (some e) x w = (err e, w)

  module _ (broker : Broker V) where
    abbrev pub produce : String → Option Bytes → V → Action V C (Unit {0})
    produce topic key body w =
        attempt (broker.produce_raises w.log) (Effect.produced topic key body) w

    -- `producer.flush(timeout)`: the number of undelivered messages
    abbrev pub flush : Action V C ℕ
    flush w = (ok (broker.undelivered w.log), write Effect.flushed w)

    abbrev pub commit : Message → Action V C (Unit {0})
    commit message w = attempt (broker.commit_raises w.log) (Effect.committed message) w
