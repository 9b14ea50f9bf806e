-- ===== src/Kafka/Progress.antt =====
-- That one message of bad data does not stop a worker: handle_message
-- (services/python_common/poison_message.py) and the poll loop when the broker is well.
use signalchord.Prelude.{
  ℕ, ◌≡◌, refl, sym, subst, String, Bool, true, false, Option, none, List, [], ◌∷◌, All, Result, ok,
  err, if◌then◌else◌, ◌++◌, inl, inr, ◌∙◌,
}
use signalchord.Kafka.World.{
  Exn, Bytes, Message, Effect, Broker, World, Action, after, ◌>>◌, attempt, produce, commit, write,
}
use signalchord.Kafka.Envelope.{Codec}
use signalchord.Kafka.Poison.{
  Handler, publish_to_dlq, confirm, isolate, conclude, handle_message, publish_isolated,
  call_failed_event, call_dlq_key,
}
use signalchord.Kafka.Commits.{commits, IsQuiet}
use signalchord.Kafka.Delivery.{messages, poll_loop-handle_message}
use signalchord.Kafka.Loop.{Poll, nothing, transport, received, poll_step, poll_loop}

-- a broker that takes and confirms everything
abbrev pub IsWell : {V : Type 0} → Broker V → Type 0
IsWell {V} broker =
    (log : List (Effect V))
    → (broker.produce_raises log ≡ none)
      × (broker.commit_raises log ≡ none)
      × (broker.undelivered log ≡ 0)
      × (broker.delivery_error log ≡ none)

-- it ended, or raised a ValueError
abbrev pub IsMild : Result Exn (Unit {0}) → Type 0
IsMild (ok u) = Unit {0}
IsMild (err e) = e.is_value_error ≡ true

-- the consumer answered without an error
abbrev pub IsCalm : Poll → Type 0
IsCalm nothing = Unit {0}
IsCalm (transport text) = ⊥
IsCalm (received message) = Unit {0}

ok_ne_err : {e : Exn} → (◌≡◌ {A = Result Exn (Unit {0})} (ok tt) (err e)) → ⊥
ok_ne_err h = cc

module _ {V C A : Type 0} (codec : Codec) (broker : Broker V) (now : String) (h : Handler V C A)
    (well : IsWell broker) where
  -- the worker's own event and key for the DLQ are there, whatever state it is in
  abbrev pub IsReady : Type 0
  IsReady =
      (c : C)
      → ((event : Option A) × (call_failed_event codec broker now h c ≡ ok event))
        × ((message : Message)
            → (key : Option Bytes) × (call_dlq_key codec broker now h message c ≡ ok key))

  commit-returns : (message : Message) (w : World V C) → (commit broker message w).0 ≡ ok tt
  commit-returns message w =
      subst (λ o. (attempt o (Effect.committed message) w).0 ≡ ok tt) (sym (well w.log).1) refl

  after-returns :
      (r : Result Exn (Unit {0}) × World V C) (f : Action V C (Unit {0}))
      → r.0 ≡ ok tt
      → ((w : World V C) → (f w).0 ≡ ok tt)
      → (after r (λ _. f)).0 ≡ ok tt
  after-returns (ok u, w) f e g = g w
  after-returns (err x, w) f e g = cc

  confirm-returns :
      (n : ℕ) (o : Option String) (w : World V C)
      → n ≡ 0
      → o ≡ none
      → (confirm broker n o w).0 ≡ ok tt
  confirm-returns n o w e f = rw (e, f) refl

  publish_to_dlq-returns :
      (topic : String) (key : Option Bytes) (body : V) (w : World V C)
      → (publish_to_dlq broker topic key body w).0 ≡ ok tt
  unfolding publish_to_dlq
  publish_to_dlq-returns topic key body w =
      after-returns (produce broker topic key body w) _
        (subst (λ o. (attempt o (Effect.produced topic key body) w).0 ≡ ok tt) (sym (well w.log).0)
          refl)
        (λ v.
          confirm-returns (broker.undelivered v.log)
            (broker.delivery_error (write Effect.flushed v).log) (write Effect.flushed v)
            (well v.log).2 (well (write Effect.flushed v).log).3)

  publish_isolated-returns :
      (message : Message) (e : Exn) (f : Result Exn (Option A)) (g : Result Exn (Option Bytes))
      (event : Option A) (key : Option Bytes) (w : World V C)
      → f ≡ ok event
      → g ≡ ok key
      → (publish_isolated codec broker now h message e f g w).0 ≡ ok tt
  unfolding publish_isolated
  publish_isolated-returns message e (ok x) (ok y) event key w hf hg =
      publish_to_dlq-returns h.dlq_topic y _ w
  publish_isolated-returns message e (ok x) (err y) event key w hf hg = cc
  publish_isolated-returns message e (err x) g event key w hf hg = cc

  isolate-returns :
      IsReady
      → (message : Message) (e : Exn) (b : Bool) (w : World V C) → b ≡ true
      → (if b
          then (isolate codec broker now h message e >> commit broker message) w
          else (err e, w)).0
        ≡ ok tt
  unfolding isolate
  isolate-returns ready message e true w k =
      after-returns (isolate codec broker now h message e w) (commit broker message)
        (let (event, hf) = (ready w.cell).0 in
          let (key, hg) = (ready w.cell).1 message in
          publish_isolated-returns message e _ _ event key w hf hg)
        (commit-returns message)
  isolate-returns ready message e false w k = cc

  conclude-returns :
      IsReady
      → (message : Message) (r : Result Exn (Unit {0}) × World V C) → IsMild r.0
      → (conclude codec broker now h message r).0 ≡ ok tt
  unfolding conclude
  conclude-returns ready message (ok u, w) k = commit-returns message w
  conclude-returns ready message (err e, w) k = isolate-returns ready message e e.is_value_error w k

  module _ (process : Message → Action V C (Unit {0}))
      (mild : (message : Message) (w : World V C) → IsMild (process message w).0)
      (ready : IsReady) where
    abbrev handle : Message → Action V C (Unit {0})
    handle message = handle_message codec broker now h message (process message)

    poll_step-returns : (p : Poll) (w : World V C) → IsCalm p → (poll_step handle p w).0 ≡ ok tt
    unfolding handle_message
    poll_step-returns nothing w k = refl
    poll_step-returns (transport text) w k = elim k [ ]
    poll_step-returns (received message) w k =
        conclude-returns ready message (process message w) (mild message w)

    poll_loop-ok :
        (ps : List Poll) (w : World V C) → All IsCalm ps → (poll_loop handle ps w).0 ≡ ok tt
    unfolding poll_loop
    poll_loop-ok [] w k = refl
    poll_loop-ok (p ∷ ps) w k =
        after-returns (poll_step handle p w) (poll_loop handle ps) (poll_step-returns p w k.0)
          (λ v. poll_loop-ok ps v k.1)

    -- If the broker takes and confirms everything, the worker's callbacks for the DLQ return, its
    -- own handling raises nothing but ValueErrors and commits nothing itself, and the consumer
    -- reports no error, the loop returns, and it has committed every message received, in order: no
    -- message keeps it from the messages after it.
    pub poll_loop-returns :
        ((message : Message) → IsQuiet (process message))
        → (ps : List Poll) (w : World V C) → All IsCalm ps
        → let r =
            poll_loop
              (λ message. handle_message codec broker now h message (process message))
              ps
              w in
          (r.0 ≡ ok tt) × (commits r.1.log ≡ commits w.log ++ messages ps)
    poll_loop-returns quiet ps w k =
        elim (poll_loop-handle_message codec broker now h process quiet ps w) [
          | inl (good, e) ↦ (good, e)
          | inr (before, p, later, x, split, bad, e) ↦
              absurd (ok_ne_err (sym (poll_loop-ok ps w k) ∙ bad))
        ]
