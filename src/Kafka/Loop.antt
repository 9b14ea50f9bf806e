-- ===== src/Kafka/Loop.antt =====
-- The poll loop in the `main` of every Kafka worker, such as
-- services/notification-worker/worker.py. How one message is handled is a parameter.
use signalchord.Prelude.{String, false, List, [], ◌∷◌}
use signalchord.Kafka.World.{Exn, Message, Action, ◌>>◌, pure, raise}

-- What `consumer.poll` gives: None, a message with an error, or a message.
pub data Poll : Type 0 where
  nothing : Poll
  transport : String → Poll
  received : Message → Poll

-- RuntimeError(message.error())
abbrev pub transport_error : String → Exn
transport_error text = record { is_value_error = false; type_name = "RuntimeError"; text = text }

module _ {V C : Type 0} (handle_one_message : Message → Action V C (Unit {0})) where
  -- what the body of the loop does with one answer
  abbrev pub poll_step : Poll → Action V C (Unit {0})
  poll_step nothing = pure tt
  poll_step (transport text) = raise (transport_error text)
  poll_step (received message) = handle_one_message message

  -- the loop over the answers until a signal stops it, or an exception
  unfoldable pub poll_loop : List Poll → Action V C (Unit {0})
  poll_loop [] = pure tt
  poll_loop (p ∷ ps) = poll_step p >> poll_loop ps
