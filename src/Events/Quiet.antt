-- ===== src/Events/Quiet.antt =====
-- Publishing commits no offset.
use signalchord.Prelude.{refl, ◌∙◌, String, some, List, [], ◌∷◌, Result, ok, err}
use signalchord.Kafka.World.{Exn, Effect, Broker, Action, ◌>>=◌}
use signalchord.Kafka.Commits.{IsQuiet, after-IsQuiet, bind-IsQuiet, attempt-IsQuiet, flush-IsQuiet}
use signalchord.Graph.Json.{Json, Fields}
use signalchord.Events.Values.{Runtime, as_text}
use signalchord.Events.Envelope.{Keyed, graph_topic, envelope}
use signalchord.Events.Publish.{lift, publish, publish_mutations, flush_all}

module _ {V C : Type 0} where
  pub lift-IsQuiet : {B : Type 0} (r : Result Exn B) → IsQuiet (lift {V = V} {C = C} r)
  lift-IsQuiet (ok b) w = refl
  lift-IsQuiet (err e) w = refl

  pub lift_bind-IsQuiet :
      {B D : Type 0} (r : Result Exn B) (f : B → Action V C D)
      → ((b : B) → IsQuiet (f b))
      → IsQuiet (lift r >>= f)
  lift_bind-IsQuiet r f h w = after-IsQuiet (lift r w) f h ∙ lift-IsQuiet r w

  module _ {A : Type 0} (rt : Runtime A V) (broker : Broker V) where
    pub publish-IsQuiet :
        (topic : String) (key : Json A) (event : Fields A)
        → IsQuiet (publish {C = C} rt broker topic key event)
    unfolding publish
    publish-IsQuiet topic key event = lift_bind-IsQuiet {D = Unit {0}} (as_text key) _ (λ k.
        lift_bind-IsQuiet {D = Unit {0}} (rt.encode k) _ (λ encoded w.
          attempt-IsQuiet (broker.produce_raises w.log)
            (Effect.produced topic (some encoded) (rt.dumps event)) refl w))

    pub publish_mutations-IsQuiet :
        (origin version : String) (source : Json A) (mutations : List (Keyed A))
        → IsQuiet (publish_mutations {C = C} rt broker origin version source mutations)
    unfolding publish_mutations
    publish_mutations-IsQuiet origin version source [] w = refl
    publish_mutations-IsQuiet origin version source ((key, mutation) ∷ mutations) w =
        lift_bind-IsQuiet {D = Unit {0}}
          (envelope rt origin version source graph_topic key mutation "graph-mutation-build") _
          (λ event.
            bind-IsQuiet {B = Unit {0}} (publish rt broker graph_topic key event) _
              (publish-IsQuiet graph_topic key event)
              (λ _. publish_mutations-IsQuiet origin version source mutations))
          w

    pub flush_all-IsQuiet : IsQuiet (flush_all {C = C} rt broker)
    flush_all-IsQuiet w = flush-IsQuiet broker w
