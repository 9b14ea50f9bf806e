-- ===== src/Graph/Scope.antt =====
-- What build_statement (services/graph-projector/worker.py) can write: to which tenant, and by
-- which queries.
use signalchord.Prelude.{
  ◌≡◌, refl, String, Bool, true, false, Option, none, some, List, [], ◌∷◌, ◌++◌, Dict, lookup, ◌=ˢ◌,
  contains, if◌then◌else◌, ok, err, Post, Post-bind, Post-weaken, arith, map, eq_refl, subst,
}
use signalchord.Graph.Json.{Json, text, object, other, Fields, get, put, get-put_self}
use signalchord.Graph.Queries.{source_takedown, offered_nodes, offered_links}
use signalchord.Graph.Statement.{
  PermanentMutationError, Parsed, Statement, node_labels, entity_labels, relationship_types,
  takedown_query, node_query, relationship_query, required_string, string_of, properties_of,
  object_of, labels_of_entity, find_labels, relationship_statement, labelled_statement,
  statement_for, build_statement, payload_not_an_object, not_a_string,
}

abbrev values : {V : Type 0} → Dict V → List V
values [] = []
values ((k, v) ∷ d) = v ∷ values d

-- The queries that may be run. No text of an event is part of them.
abbrev pub queries : List String
queries = source_takedown ∷ offered_nodes ++ offered_links

-- the projector's own queries for nodes, and all of its queries
abbrev node_queries : List String
node_queries = map node_query (values node_labels) ++ map node_query (values entity_labels)

abbrev own_queries : List String
own_queries = takedown_query ∷ node_queries ++ map relationship_query (values relationship_types)

own_queries-queries : own_queries ≡ queries
own_queries-queries = refl

contains-append_left :
    (xs ys : List String) (s : String) → contains xs s ≡ true → contains (xs ++ ys) s ≡ true
contains-append_left [] ys s h = cc
contains-append_left (x ∷ xs) ys s h = ground (arith, contains-append_left xs ys s)

contains-append_right :
    (xs ys : List String) (s : String) → contains ys s ≡ true → contains (xs ++ ys) s ≡ true
contains-append_right [] ys s h = h
contains-append_right (x ∷ xs) ys s h = ground (arith, contains-append_right xs ys s h)

contains-map-lookup :
    {V : Type 0} (f : V → String) (d : Dict V) (k : String) (v : V)
    → lookup k d ≡ some v
    → contains (map f (values d)) (f v) ≡ true
contains-map-lookup f [] k v h = cc
contains-map-lookup f ((j, w) ∷ d) k v h =
    ground (arith, eq_refl (f v), contains-map-lookup f d k v)

is_relationship_query :
    (k r : String)
    → lookup k relationship_types ≡ some r
    → contains queries (relationship_query r) ≡ true
is_relationship_query k r e =
    subst (λ z. contains z (relationship_query r) ≡ true) own_queries-queries
      (contains-append_right (takedown_query ∷ node_queries)
        (map relationship_query (values relationship_types)) (relationship_query r)
        (contains-map-lookup relationship_query relationship_types k r e))

is_node_query :
    (labels : List String)
    → contains node_queries (node_query labels) ≡ true
    → contains queries (node_query labels) ≡ true
is_node_query labels h =
    subst (λ z. contains z (node_query labels) ≡ true) own_queries-queries
      (contains-append_left (takedown_query ∷ node_queries)
        (map relationship_query (values relationship_types)) (node_query labels)
        (contains-append_right (takedown_query ∷ []) node_queries (node_query labels) h))

module _ {A Raw : Type 0} (strip : String → String) (loads : Raw → Option (Json A)) where
  -- a text that is there and is not blank
  abbrev pub IsGiven : Fields A → String → String → Type 0
  IsGiven d key s = (get key d ≡ some (text s)) × ((strip s =ˢ "") ≡ false)

  abbrev pub Anything : PermanentMutationError → Type 0
  Anything e = Unit

  Post-trivial : {B : Type 0} (r : Parsed B) → Post (λ _. Unit) Anything r
  Post-trivial (ok b) = tt
  Post-trivial (err e) = tt

  Post-if :
      {B : Type 0} (P : B → Type 0) (b : Bool) (x y : Parsed B)
      → Post P Anything x
      → Post P Anything y
      → Post P Anything (if b then x else y)
  Post-if P true x y h k = h
  Post-if P false x y h k = k

  given_text :
      (key s : String) (b : Bool)
      → (strip s =ˢ "") ≡ b
      → Post
          (λ z.
            (◌≡◌ {A = Option (Json A)} (some (text s)) (some (text z))) × ((strip z =ˢ "") ≡ false))
          Anything
          (if b then err (not_a_string key) else ok s)
  given_text key s true e = tt
  given_text key s false e = (refl, e)

  string_of-Post :
      (key : String) (o : Option (Json A))
      → Post
          (λ z. (o ≡ some (text z)) × ((strip z =ˢ "") ≡ false))
          Anything
          (string_of strip loads key o)
  string_of-Post key none = tt
  string_of-Post key (some (text s)) = given_text key s (strip s =ˢ "") refl
  string_of-Post key (some (object d)) = tt
  string_of-Post key (some (other a)) = tt

  -- The parameter `tenant_id` is the tenant, the properties written hold the tenant, and the query is
  -- one of those written out in Queries, which look nodes up by that parameter.
  abbrev pub IsScopedTo : String → Statement A → Type 0
  IsScopedTo tenant s =
      (get "tenant_id" s.parameters ≡ some (text tenant))
      × ((p : Fields A) × (get "properties" s.parameters ≡ some (object p))
          × (get "tenant_id" p ≡ some (text tenant)))
      × (contains queries s.query ≡ true)

  module _ (payload : Fields A) (mutation_type stable_id tenant : String)
      (properties : Fields A) where
    relationship_statement-IsScopedTo :
        (o : Option String)
        → lookup mutation_type relationship_types ≡ o
        → Post
            (IsScopedTo tenant)
            Anything
            (relationship_statement strip loads payload mutation_type stable_id tenant properties o)
    relationship_statement-IsScopedTo none e = tt
    relationship_statement-IsScopedTo (some r) e =
        Post-bind (λ _. Unit) (IsScopedTo tenant) Anything
          (required_string strip loads payload "from_id") _
          (Post-trivial (required_string strip loads payload "from_id"))
          (λ from_id _.
            Post-bind (λ _. Unit) (IsScopedTo tenant) Anything
              (required_string strip loads payload "to_id") _
              (Post-trivial (required_string strip loads payload "to_id"))
              (λ to_id _. (
                refl,
                (
                  put "tenant_id" (text tenant) properties,
                  refl,
                  get-put_self "tenant_id" (text tenant) properties,
                ),
                is_relationship_query mutation_type r e,
              )))

    -- the labels that a mutation writes are those of one of the projector's node queries
    IsOffered : Option (List String) → Type 0
    IsOffered none = Unit
    IsOffered (some labels) = contains node_queries (node_query labels) ≡ true

    IsOffered-entity :
        (k : String) (o : Option (List String))
        → lookup k entity_labels ≡ o
        → Post IsOffered Anything (labels_of_entity strip loads k o)
    unfolding IsOffered
    IsOffered-entity k none e = tt
    IsOffered-entity k (some labels) e =
        contains-append_right (map node_query (values node_labels))
          (map node_query (values entity_labels)) (node_query labels)
          (contains-map-lookup node_query entity_labels k labels e)

    IsOffered-node : (o : Option (List String)) → lookup mutation_type node_labels ≡ o → IsOffered o
    unfolding IsOffered
    IsOffered-node none e = tt
    IsOffered-node (some labels) e =
        contains-append_left (map node_query (values node_labels))
          (map node_query (values entity_labels)) (node_query labels)
          (contains-map-lookup node_query node_labels mutation_type labels e)

    find_labels-IsOffered : Post IsOffered Anything (find_labels strip loads payload mutation_type)
    find_labels-IsOffered =
        Post-if IsOffered (mutation_type =ˢ "upsert_entity") _ _
          (Post-bind (λ _. Unit) IsOffered Anything
            (required_string strip loads payload "entity_type") _
            (Post-trivial (required_string strip loads payload "entity_type"))
            (λ k _. IsOffered-entity k (lookup k entity_labels) refl))
          (IsOffered-node (lookup mutation_type node_labels) refl)

    labelled_statement-IsScopedTo :
        (o : Option (List String))
        → IsOffered o
        → Post
            (IsScopedTo tenant)
            Anything
            (labelled_statement strip loads payload mutation_type stable_id tenant properties o)
    unfolding IsOffered
    labelled_statement-IsScopedTo none h =
        relationship_statement-IsScopedTo (lookup mutation_type relationship_types) refl
    labelled_statement-IsScopedTo (some labels) h = (
      refl,
      (
        put "tenant_id" (text tenant) properties,
        refl,
        get-put_self "tenant_id" (text tenant) properties,
      ),
      is_node_query labels h,
    )

    statement_for-IsScopedTo :
        Post
          (IsScopedTo tenant)
          Anything
          (statement_for strip loads payload mutation_type stable_id properties tenant)
    statement_for-IsScopedTo =
        Post-if (IsScopedTo tenant) (mutation_type =ˢ "mark_source_takedown") _ _
          (
            refl,
            (
              put "tenant_id" (text tenant) properties,
              refl,
              get-put_self "tenant_id" (text tenant) properties,
            ),
            refl,
          )
          (Post-bind IsOffered (IsScopedTo tenant) Anything
            (find_labels strip loads payload mutation_type) _ find_labels-IsOffered
            labelled_statement-IsScopedTo)

  -- Every statement that build_statement makes of an event is for the event's own tenant, a text
  -- that is not blank: it is the parameter `tenant_id` and the tenant_id of the properties written,
  -- whatever tenant_id the payload's properties carry, and the query is one of a list written out
  -- in full, each of which keys the nodes that it merges or matches by that parameter (the articles
  -- of a source that is taken down are found by their edge to it), and no text of the event is part
  -- of it.
  pub build_statement-IsScopedTo :
      (event : Fields A)
      → Post
          (λ s. (tenant : String) × IsGiven event "tenant_id" tenant × IsScopedTo tenant s)
          Anything
          (build_statement strip loads event)
  unfolding build_statement
  build_statement-IsScopedTo event =
      Post-bind (λ _. Unit) _ Anything
        (object_of strip loads payload_not_an_object (get "payload" event)) _
        (Post-trivial (object_of strip loads payload_not_an_object (get "payload" event)))
        (λ payload _.
          Post-bind (λ _. Unit) _ Anything (required_string strip loads payload "mutation_type") _
            (Post-trivial (required_string strip loads payload "mutation_type"))
            (λ mutation_type _.
              Post-bind (λ _. Unit) _ Anything (required_string strip loads payload "stable_id") _
                (Post-trivial (required_string strip loads payload "stable_id"))
                (λ stable_id _.
                  Post-bind (λ _. Unit) _ Anything
                    (properties_of strip loads (get "properties" payload)) _
                    (Post-trivial (properties_of strip loads (get "properties" payload)))
                    (λ properties _.
                      Post-bind (IsGiven event "tenant_id") _ Anything
                        (required_string strip loads event "tenant_id") _
                        (string_of-Post "tenant_id" (get "tenant_id" event))
                        (λ tenant given.
                          Post-weaken (IsScopedTo tenant) _ Anything Anything
                            (statement_for strip loads payload mutation_type stable_id properties
                              tenant)
                            (statement_for-IsScopedTo payload mutation_type stable_id tenant
                              properties)
                            (λ s scoped. (tenant, given, scoped)) (λ e _. tt))))))
