-- ===== src/Graph/Tests.antt =====
-- Concrete events for services/graph-projector/worker.py.
use signalchord.Prelude.{◌≡◌, refl, String, Option, none, ok, Post, [], ◌∷◌}
use signalchord.Prelude.{ℕ, List, some, length}
use signalchord.Kafka.World.{World}
use signalchord.Kafka.Poison.{handle_message, conclude}
use signalchord.Kafka.Loop.{Poll, nothing, received, poll_loop}
use signalchord.Kafka.Tests.{codec, broker, sample}
use signalchord.Graph.Statement.{parse_event}
use signalchord.Graph.Projector.{
  Projector, Platform, handle_one_message, process, process_source, apply_statement, announce,
}
use signalchord.Graph.Writes.{IsClean, poll_loop-IsClean}
use signalchord.Graph.Json.{Json, text, object, Fields, nil, field}
use signalchord.Graph.Statement.{build_statement, node_query}
use signalchord.Graph.Scope.{Anything, IsGiven, IsScopedTo, build_statement-IsScopedTo}

-- An article of the tenant acme, whose properties name another tenant.
abbrev article : Fields (Unit {0})
article = field "tenant_id" (text "acme") (
    field "payload"
      (object (
        field "mutation_type" (text "upsert_article") (
          field "stable_id" (text "article:1")
            (field "properties" (object (field "tenant_id" (text "other") nil)) nil))))
      nil)

abbrev no_strip : String → String
no_strip s = s

abbrev no_json : String → Option (Json (Unit {0}))
no_json s = none

article_statement :
    build_statement no_strip no_json article
    ≡ ok (record {
      query = node_query ("Article" ∷ []);
      parameters = field "stable_id" (text "article:1") (
          field "tenant_id"
            (text "acme")
            (field "properties" (object (field "tenant_id" (text "acme") nil)) nil));
    })
unfolding build_statement
article_statement = refl

build_statement-IsScopedTo_example :
    Post
      (λ s.
        (tenant : String) × IsGiven no_strip no_json article "tenant_id" tenant
        × IsScopedTo no_strip no_json tenant s)
      (Anything no_strip no_json)
      (build_statement no_strip no_json article)
build_statement-IsScopedTo_example = build_statement-IsScopedTo no_strip no_json article

-- Every message is the article's.
abbrev platform : Platform (Unit {0}) ℕ
platform = record {
  null = tt;
  one = tt;
  strip = no_strip;
  loads = λ raw. some (object article);
  dumps = λ d. 1;
  dumps_envelope = λ e. 2;
  str_of = λ v. "";
  encode = λ s. ok [];
  now = "now";
  fresh = "id";
  write_raises = λ written s. none;
}

abbrev idle : World ℕ (Projector (Unit {0}))
idle = record { log = []; cell = record { source = none; written = [] } }

abbrev sample_polls : List Poll
sample_polls = received sample ∷ nothing ∷ received sample ∷ []

poll_loop-IsClean_example :
    IsClean platform broker
      (poll_loop (handle_one_message platform broker codec) sample_polls idle).1.cell
poll_loop-IsClean_example = poll_loop-IsClean platform broker codec sample_polls idle tt

two_written :
    length (poll_loop (handle_one_message platform broker codec) sample_polls idle).1.cell.written
    ≡ 2
unfolding poll_loop handle_one_message handle_message conclude process process_source
    apply_statement announce build_statement parse_event
two_written = refl
