-- ===== src/Lib.antt =====
-- SignalChord: the Python services under services/.
--
-- Events flow through Kafka topics. Each worker polls a topic, handles a message and commits its
-- offset; a message that fails for good is published to a dead-letter topic first. The graph
-- projector turns mutation events into Cypher statements for Neo4j. The NLP worker makes such
-- events of a document, and events about its mentions, claims and relations, of which the entity
-- and the claim workers make more mutation events; Contract in each of them meets Graph/Contract,
-- the projector's side. The Velato engine scores alerts: a policy is a program of a stack
-- machine, written as MIDI notes, as a serialized list or by macros, which is checked once and
-- then run on named inputs. Every worker checks its environment before it starts in production.
--
-- Prelude has the helpers: Boolean tests, lists, texts and dictionaries, integers, results with
--   exceptions.
-- Velato has services/velato-engine/engine.py. Ops has the enum Op and the tables over it, Ir the
--   instructions and notes, Errors the exceptions, Analysis analyze_ir, Step one instruction and
--   Execute the loop of execute, Compile compile_notes, Midi parse_midi and encode_midi,
--   Serialize serialize_ir, deserialize_ir and default_policy_ir. Library is
--   services/velato-engine/standard_library.py, its macros run on the machine in Bands and
--   Normalize.
-- Kafka has services/python_common/poison_message.py (Envelope, Poison), the effects of a worker
--   (World) and the poll loop of every worker's main (Loop).
-- Graph has services/graph-projector/worker.py. Json has the values of an event, Statement
--   build_statement, Queries its queries written out, Projector handle_one_message.
-- Entities has services/entity-resolution/: Slug and Resolve resolver.py, Worker worker.py.
-- Events has what the workers share: Values Python's operations on JSON values, Envelope
--   envelope, Publish publish and the loop over the mutations of the graph.
-- Nlp has services/nlp-pipeline/: Document, Mentions, Relations and Extract app.py, Worker
--   worker.py, with the reading of an event in Source and Inputs, the payloads in Mutations and
--   Records and handle_one_message in Process.
-- Claims has services/claim-intelligence/: Cluster engine.py, Worker worker.py, with
--   graph_mutations in Mutations and handle_one_message in Process.
-- Search has services/search-projector/worker.py: Project what project requests, Process the
--   requests and handle_one_message; Feeds joins it to the entity and the claim workers.
-- Notify has services/notification-worker/worker.py: Deliver the message and the answer of the
--   provider, Process the calls of deliver and handle_one_message.
-- Pipeline joins the NLP worker to the entity and the claim workers and to the graph projector.
-- Config has services/python_common/production_config.py. Env has the helpers, Check the checks,
--   Validate validate_production_config, Kafka kafka_config.
--
-- Exceptions are values; where something was done before a raise, the world comes back beside the
-- exception. A float that the source writes as a literal is a number of hundredths. Messages of
-- exceptions are constructors or shortened texts. Python sets are lists in the order of
-- insertion. All loops are structural recursion, so no fuel is used. The interpreter's theorem
-- asks for a stack limit of at most 1024, the largest int that Floats takes to be exact; the
-- engine's default is 64.
--
-- Parameters stand for what is not in the repository, or has no counterpart here: Floats and
-- Numbers for Python's numbers, with the laws that the engine relies on; the digest of a trace;
-- Mido for the library mido; Codec for UTF-8 and base64; Broker for confluent_kafka, whose
-- answers are any functions of what was done before; TextLibrary for strip, lower and urlparse;
-- Platform for JSON, the clock, identifiers and the Neo4j driver, and in Nlp for floats, the
-- embedding and the object storage; Runtime for what every worker uses of JSON, the clock and the
-- text functions; Resolver for floats and candidates as JSON values; Http for the HTTP client,
-- Storage and Client for the object storage and the search index, whose answers are any functions
-- of what was done before; Language for the regular expressions and Unicode.
--
-- Not modelled: the assembly text of programs and the HTTP services; hash_embedding, which is
-- float arithmetic; the graph query and analytics services; the Velato and alert workers'
-- handling of their events; the main of every worker but for its poll loop; the validation
-- scripts under scripts/; the services in Go, Ruby and TypeScript; the deployment.
pub mod Nlp
pub mod Prelude
pub mod Claims
pub mod Config
pub mod Entities
pub mod Events
pub mod Graph
pub mod Kafka
pub mod Notify
pub mod Pipeline
pub mod Search
pub mod Velato
