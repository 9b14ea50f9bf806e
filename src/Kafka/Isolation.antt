-- ===== src/Kafka/Isolation.antt =====
-- What has happened when handle_message returns although the handling of the message raised
-- (services/python_common/poison_message.py).
use signalchord.Prelude.{
  ℕ, zero, suc, ◌≡◌, refl, String, Bool, true, false, Option, none, some, List, [], ◌∷◌, ◌++◌,
  Result, ok, err, ap, ◌∙◌, arith, subst, sym, if◌then◌else◌,
}
use signalchord.Kafka.World.{
  Exn, Bytes, Message, Effect, Broker, World, Action, after, ◌>>◌, attempt, commit, write,
}
use signalchord.Kafka.Envelope.{Codec}
use signalchord.Kafka.Poison.{
  Handler, publish_to_dlq, confirm, await, isolate, conclude, handle_message, envelope_of,
  call_dlq_key, call_failed_event, publish_isolated,
}
use mathlib.Core.List.{append_assoc}

-- the records that a confirmed publication leaves in the log
abbrev pub publication : {V : Type 0} → String → Option Bytes → V → List (Effect V)
publication topic key body = Effect.produced topic key body ∷ Effect.flushed ∷ []

module _ {V : Type 0} (broker : Broker V) where
  -- after the produced record nothing is undelivered, and the callback reported no error
  abbrev pub IsConfirmed : List (Effect V) → String → Option Bytes → V → Type 0
  IsConfirmed log topic key body =
      (broker.undelivered (log ++ Effect.produced topic key body ∷ []) ≡ 0)
      × (broker.delivery_error (log ++ publication topic key body) ≡ none)

module _ {V C : Type 0} (broker : Broker V) where
  confirm-ok_inv :
      (pending : ℕ) (o : Option String) (w : World V C)
      → (confirm broker pending o w).0 ≡ ok tt
      → (pending ≡ 0) × (o ≡ none) × ((confirm broker pending o w).1 ≡ w)
  confirm-ok_inv zero none w h = (refl, refl, refl)
  confirm-ok_inv zero (some e) w h = cc
  confirm-ok_inv (suc n) o w h = ground arith

  attempt-ok_inv :
      (o : Option Exn) (x : Effect V) (w : World V C) (f : Unit {0} → Action V C (Unit {0}))
      → (after (attempt o x w) f).0 ≡ ok tt
      → after (attempt o x w) f ≡ f tt (write x w)
  attempt-ok_inv none x w f h = refl
  attempt-ok_inv (some e) x w f h = cc

  write-ok_inv :
      (o : Option Exn) (x : Effect V) (w : World V C)
      → (attempt o x w).0 ≡ ok tt
      → (attempt o x w).1 ≡ write x w
  write-ok_inv none x w h = refl
  write-ok_inv (some e) x w h = cc

  -- A publication that returns is in the log and was confirmed.
  publish_to_dlq-ok_inv :
      (topic : String) (key : Option Bytes) (body : V) (w : World V C)
      → (publish_to_dlq broker topic key body w).0 ≡ ok tt
      → ((publish_to_dlq broker topic key body w).1.log ≡ w.log ++ publication topic key body)
        × IsConfirmed broker w.log topic key body
  unfolding publish_to_dlq
  publish_to_dlq-ok_inv topic key body w h =
      let o = broker.produce_raises w.log in
      let x = Effect.produced topic key body in
      let v = write x w in
      let e = attempt-ok_inv o x w (λ _. await broker) h in
      let c =
        confirm-ok_inv (broker.undelivered v.log)
          (broker.delivery_error (write Effect.flushed v).log) (write Effect.flushed v)
          (subst (λ r. r.0 ≡ ok tt) e h) in
      let a = append_assoc w.log (x ∷ []) (Effect.flushed ∷ []) in
      (
        ap (λ r. r.1.log) e ∙ ap (λ z. z.log) c.2 ∙ a,
        (c.0, subst (λ z. broker.delivery_error z ≡ none) a c.1),
      )

  after_publish :
      (topic : String) (key : Option Bytes) (body : V) (message : Message) (w : World V C)
      (r : Result Exn (Unit {0}) × World V C)
      → (r.0 ≡ ok tt → r.1.log ≡ w.log ++ publication topic key body)
      → (after r (λ _. commit broker message)).0 ≡ ok tt
      → (r.0 ≡ ok tt)
        × ((after r (λ _. commit broker message)).1.log
            ≡ w.log ++ (publication topic key body ++ Effect.committed message ∷ []))
  after_publish topic key body message w (ok _, v) f h = (
    refl,
    ap (λ z. z.log) (write-ok_inv (broker.commit_raises v.log) (Effect.committed message) v h)
        ∙ ap (λ z. z ++ Effect.committed message ∷ []) (f refl)
        ∙ append_assoc w.log (publication topic key body) (Effect.committed message ∷ []),
  )
  after_publish topic key body message w (err e, v) f h = cc

module _ {V C A : Type 0} (codec : Codec) (broker : Broker V) (now : String)
    (h : Handler V C A) where
  module _ (message : Message) (e : Exn) (w : World V C) where
    -- The message is isolated: the worker's callbacks gave an event and a key, then the envelope of
    -- the event was published under the key and confirmed, then came the commit.
    abbrev pub IsIsolated : List (Effect V) → Type 0
    IsIsolated log =
        (event : Option A) × (key : Option Bytes) × (call_failed_event codec broker now h w.cell
          ≡ ok event)
        × (call_dlq_key codec broker now h message w.cell ≡ ok key)
        × IsConfirmed broker w.log h.dlq_topic key
            (h.body (envelope_of codec broker now h message e event))
        × (log
            ≡ w.log
              ++ (publication h.dlq_topic key
                    (h.body (envelope_of codec broker now h message e event))
                  ++ Effect.committed message ∷ []))

    publish_isolated-IsIsolated :
        (event : Result Exn (Option A)) (key : Result Exn (Option Bytes))
        → call_failed_event codec broker now h w.cell ≡ event
        → call_dlq_key codec broker now h message w.cell ≡ key
        → let r =
            after
              (publish_isolated codec broker now h message e event key w)
              (λ _. commit broker message) in
          r.0 ≡ ok tt → IsIsolated r.1.log
    unfolding publish_isolated
    publish_isolated-IsIsolated (err x) key f g bad = cc
    publish_isolated-IsIsolated (ok event) (err x) f g bad = cc
    publish_isolated-IsIsolated (ok event) (ok key) f g good =
        let v = h.body (envelope_of codec broker now h message e event) in
        let inv = publish_to_dlq-ok_inv broker h.dlq_topic key v w in
        let c =
          after_publish broker h.dlq_topic key v message w
            (publish_to_dlq broker h.dlq_topic key v w) (λ g. (inv g).0) good in
        (event, key, f, g, (inv c.0).1, c.1)

    isolate-IsIsolated :
        (b : Bool)
        → let r =
            if b
            then (isolate codec broker now h message e >> commit broker message) w
            else (err e, w) in
          r.0 ≡ ok tt → (b ≡ true) × IsIsolated r.1.log
    unfolding isolate
    isolate-IsIsolated false bad = cc
    isolate-IsIsolated true good = (refl, publish_isolated-IsIsolated _ _ refl refl good)

  -- If the worker's own handling of a message raised and handle_message returns all the same, then
  -- the exception was a ValueError, and what was done after it is this: the worker's
  -- callbacks returned, the envelope was produced to the DLQ topic under the DLQ key, the flush left nothing undelivered, the broker reported no
  -- delivery error, and only then was the message committed.
  pub handle_message-IsIsolated :
      (message : Message) (process : Action V C (Unit {0})) (e : Exn) (w v : World V C)
      → process w ≡ (err e, v)
      → (handle_message codec broker now h message process w).0 ≡ ok tt
      → (e.is_value_error ≡ true)
        × IsIsolated message e v (handle_message codec broker now h message process w).1.log
  unfolding handle_message conclude
  handle_message-IsIsolated message process e w v raised =
      subst
        (λ r.
          (conclude codec broker now h message r).0 ≡ ok tt
          → (e.is_value_error ≡ true)
            × IsIsolated message e v (conclude codec broker now h message r).1.log)
        (sym raised) (isolate-IsIsolated message e v e.is_value_error)
