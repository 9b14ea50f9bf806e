-- ===== src/Graph/Queries.antt =====
-- The Cypher queries of services/graph-projector/worker.py, written out, to compare the queries
-- of build_statement with.
use Prim.Native.String.{String, ◌++◌}
use signalchord.Prelude.{List, [], ◌∷◌}

-- A node of the tenant of the parameters is written, and nothing else is matched.
abbrev node_of : String → String
node_of labels =
    "MERGE (n:GraphNode {tenant_id: $tenant_id, stable_id: $stable_id}) "
    ++ (labels ++ " SET n += $properties RETURN n.stable_id AS stable_id")

-- A relationship is written between two nodes of the tenant of the parameters.
abbrev link_of : String → String
link_of relationship_type =
    "MERGE (a:GraphNode {tenant_id: $tenant_id, stable_id: $from_id}) "
    ++ ("MERGE (b:GraphNode {tenant_id: $tenant_id, stable_id: $to_id}) MERGE (a)-[r:"
        ++ (relationship_type
            ++ " {stable_id: $stable_id}]->(b) SET r += $properties RETURN r.stable_id AS stable_id"))

-- A source of the tenant of the parameters is marked, and the articles that it published.
abbrev pub source_takedown : String
source_takedown =
    "MATCH (source:GraphNode {tenant_id: $tenant_id, stable_id: $stable_id}) SET "
    ++ ("source.takedown_status = 'requested', source += $properties WITH source OPTIONAL MATCH "
        ++ ("(article:GraphNode)-[:PUBLISHED]->(source) SET article.takedown_status = "
            ++ "'source_requested' RETURN source.stable_id AS stable_id"))

-- The queries that may be run, written out: one for takedowns, one for each label set, and one for
-- each type of relationship. Every node that one of them looks up by a key is looked up by the
-- parameter `tenant_id` as well. No text of an event is part of them.
abbrev pub offered_nodes : List String
offered_nodes =
    node_of "SET n:Document"
    ∷ node_of "SET n:Article"
    ∷ node_of "SET n:Source"
    ∷ node_of "SET n:Evidence"
    ∷ node_of "SET n:Claim"
    ∷ node_of "SET n:Entity SET n:Company"
    ∷ node_of "SET n:Entity SET n:Organization"
    ∷ node_of "SET n:Entity SET n:GovernmentAgency"
    ∷ node_of "SET n:Entity SET n:Person"
    ∷ node_of "SET n:Entity SET n:Location"
    ∷ []

abbrev pub offered_links : List String
offered_links =
    link_of "PUBLISHED"
    ∷ link_of "DERIVED_FROM"
    ∷ link_of "MENTIONS"
    ∷ link_of "EVIDENCE_FOR"
    ∷ link_of "EVIDENCE_FOR"
    ∷ link_of "MAKES_CLAIM"
    ∷ link_of "PARTNERED_WITH"
    ∷ link_of "ACQUIRED"
    ∷ link_of "INVESTED_IN"
    ∷ link_of "COMPETES_WITH"
    ∷ link_of "REGULATES"
    ∷ link_of "AFFECTS"
    ∷ link_of "RELATED_TO"
    ∷ []
