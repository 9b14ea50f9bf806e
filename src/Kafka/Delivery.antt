-- ===== src/Kafka/Delivery.antt =====
-- The poll loop of a worker that hands each message to handle_message: what it commits.
use signalchord.Prelude.{
  ◌≡◌, refl, sym, ◌∙◌, ap, String, List, [], ◌∷◌, ◌++◌, Result, ok, err, ◌⊎◌, inl, inr, subst,
}
use signalchord.Kafka.World.{Exn, Message, Broker, World, Action, after}
use signalchord.Kafka.Envelope.{Codec}
use signalchord.Kafka.Poison.{Handler, handle_message}
use signalchord.Kafka.Loop.{Poll, nothing, transport, received, poll_step, poll_loop}
use signalchord.Kafka.Commits.{commits, acked, IsQuiet, handle_message-commits}
use mathlib.Core.List.{append-nil, append_assoc}

-- the messages among the answers of the consumer
abbrev pub messages : List Poll → List Message
messages [] = []
messages (nothing ∷ ps) = messages ps
messages (transport text ∷ ps) = messages ps
messages (received message ∷ ps) = message ∷ messages ps

-- How a loop ended, and what it committed: all messages, or those before the answer that raised.
abbrev pub IsDelivered : List Message → List Poll → Result Exn (Unit {0}) → List Message → Type 0
IsDelivered start ps r c =
    (r ≡ ok tt) × (c ≡ start ++ messages ps)
    ⊎ (before : List Poll) × (p : Poll) × (later : List Poll) × (e : Exn) × (ps
        ≡ before ++ p ∷ later)
      × (r ≡ err e)
      × (c ≡ start ++ messages before)

messages-cons : (p : Poll) (ps : List Poll) → messages (p ∷ ps) ≡ messages (p ∷ []) ++ messages ps
messages-cons nothing ps = refl
messages-cons (transport text) ps = refl
messages-cons (received message) ps = refl

gather :
    (start : List Message) (p : Poll) (ps : List Poll)
    → (start ++ messages (p ∷ [])) ++ messages ps ≡ start ++ messages (p ∷ ps)
gather start p ps =
    append_assoc start (messages (p ∷ [])) (messages ps)
    ∙ ap (λ z. start ++ z) (sym (messages-cons p ps))

IsDelivered-cons :
    (start : List Message) (p : Poll) (ps : List Poll) (r : Result Exn (Unit {0}))
    (c : List Message)
    → IsDelivered (start ++ messages (p ∷ [])) ps r c
    → IsDelivered start (p ∷ ps) r c
IsDelivered-cons start p ps r c (inl (good, e)) = inl (good, e ∙ gather start p ps)
IsDelivered-cons start p ps r c (inr (before, q, later, x, split, bad, e)) =
    inr (p ∷ before, q, later, x, ap (λ z. p ∷ z) split, bad, e ∙ gather start p before)

-- what one answer adds to the commits
abbrev gain : Poll → Result Exn (Unit {0}) → List Message
gain p (ok _) = messages (p ∷ [])
gain p (err _) = []

module _ {V C : Type 0} (handle_one_message : Message → Action V C (Unit {0}))
    (acks : (message : Message) (w : World V C)
      → commits (handle_one_message message w).1.log
        ≡ commits w.log ++ acked message (handle_one_message message w).0) where
  gain-acked :
      (message : Message) (r : Result Exn (Unit {0})) → acked message r ≡ gain (received message) r
  gain-acked message (ok _) = refl
  gain-acked message (err _) = refl

  poll_step-commits :
      (p : Poll) (w : World V C)
      → let r = poll_step handle_one_message p w in commits r.1.log ≡ commits w.log ++ gain p r.0
  poll_step-commits nothing w = sym (append-nil (commits w.log))
  poll_step-commits (transport text) w = sym (append-nil (commits w.log))
  poll_step-commits (received message) w =
      acks message w
      ∙ ap (λ z. commits w.log ++ z) (gain-acked message (handle_one_message message w).0)

  module _ (start : List Message) (p : Poll) (ps : List Poll)
      (rest : World V C → Result Exn (Unit {0}) × World V C)
      (h : (w : World V C)
        → IsDelivered (commits w.log) ps (rest w).0 (commits (rest w).1.log)) where
    after-IsDelivered :
        (r : Result Exn (Unit {0}) × World V C)
        → commits r.1.log ≡ start ++ gain p r.0
        → let s = after r (λ _. rest) in IsDelivered start (p ∷ ps) s.0 (commits s.1.log)
    after-IsDelivered (ok tt, w) e =
        IsDelivered-cons start p ps (rest w).0 (commits (rest w).1.log)
          (subst (λ z. IsDelivered z ps (rest w).0 (commits (rest w).1.log)) e (h w))
    after-IsDelivered (err x, w) e = inr ([], p, ps, x, refl, refl, e)

  poll_loop-IsDelivered :
      (ps : List Poll) (w : World V C)
      → let r = poll_loop handle_one_message ps w in
        IsDelivered (commits w.log) ps r.0 (commits r.1.log)
  unfolding poll_loop
  poll_loop-IsDelivered [] w = inl (refl, sym (append-nil (commits w.log)))
  poll_loop-IsDelivered (p ∷ ps) w =
      after-IsDelivered (commits w.log) p ps (poll_loop handle_one_message ps)
        (poll_loop-IsDelivered ps) (poll_step handle_one_message p w) (poll_step-commits p w)

module _ {V C A : Type 0} (codec : Codec) (broker : Broker V) (now : String)
    (h : Handler V C A) where
  -- A worker whose handling of each message commits nothing itself loses no message: whatever the
  -- consumer answers, the loop either ends well and has committed every message received, in
  -- order, or it stops at an answer that raised, and has committed exactly the messages before it.
  pub poll_loop-handle_message :
      (process : Message → Action V C (Unit {0}))
      → ((message : Message) → IsQuiet (process message))
      → (ps : List Poll) (w : World V C)
      → let r =
          poll_loop (λ message. handle_message codec broker now h message (process message)) ps w in
        IsDelivered (commits w.log) ps r.0 (commits r.1.log)
  poll_loop-handle_message process q =
      poll_loop-IsDelivered _
        (λ message. handle_message-commits codec broker now h message (process message) (q message))
