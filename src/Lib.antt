-- ===== src/Lib.antt =====
-- A model of the core of EvoEventMem, an evidence-bound memory service for agents, with its theorems.
--
-- The program keeps memory records: facts, events, episodes and procedures of a user and a tenant, each
-- with its evidence. The services write, search, explain and forget them in a repository; the
-- consolidation decides whether a new record is added, merged, supersedes others or is rejected.
--
-- Which file models which part:
-- - Domain (Text, Value, Models, Order): src/evoeventmem/domain/models.py. `MemoryRecord` is a record
--   with the fields of the class, `model_validate` the field constraints and `validate_contract`,
--   `normalize_memory_content` and `memory_order_key` the functions of these names.
-- - Repository: the protocol `MemoryRepository` of src/evoeventmem/core/ports.py (Port), an interface of
--   operations with its laws, and src/evoeventmem/infra/in_memory_repository.py (InMemory), which
--   fills it. An operation takes the state and returns the new one. `transaction` runs its body on a
--   working copy; what the body raises leaves the state as it was.
-- - Rules (Identity, Scope, Events): src/evoeventmem/services/memory_rules.py and the request scope of
--   src/evoeventmem/core/ports.py.
-- - Service: src/evoeventmem/services/memory_service.py. Single has `write`, `explain`, `feedback` and
--   `forget`, Search has `search`, Batch has `write_extracted_events` from the preparation of the
--   candidates over collisions and duplicates to the metrics.
-- - Etec: src/evoeventmem/consolidation.py and the sets of src/evoeventmem/core/math_utils.py. Keys,
--   Times and Features compute the feature vector of a pair, Score has `_score_pair`, Select has
--   `decide` and `_select_decision`, Copy the records that are stored, Targets the candidates, Pairs and
--   Supersede `_apply_supersede` and the relinking of histories, Apply has `apply`. A loop is a recursion
--   over the list, and an early return in a loop is a value of `SweepResult`.
-- - Async: the asynchronous part. Types and Port have the types and the repository protocol of
--   src/evoeventmem/core/ports.py, Store has src/evoeventmem/infra/async_in_memory_repository.py with
--   its records and vectors, and Service has src/evoeventmem/services/async_memory_service.py. The calls
--   of the repository do not wait for anything, so that an await is a plain call; other interleavings
--   are sequences of calls (the relation Step).
-- - Linking: src/evoeventmem/linking.py. Keys has the keys of names, aliases and fact slots, Indexes
--   `_build_request_indexes`, EntityPool and EventPool the two comparison pools, Score the candidates, Generate
--   `generate` and Recall `calculate_candidate_recall`. A function with early returns is a list of
--   phases that run until the pool is full (`for_until`); a set is a list.
-- - Tokens: src/evoeventmem/tokenization.py, with the character classes of its regular expressions.
-- - Failures: src/evoeventmem/infra/failures.py, the reason codes.
-- - Retrieval: parts of src/evoeventmem/retrieval.py. Weights has the profiles, Sources the candidates of four
--   sources, Temporal `_apply_temporal_constraint`, Candidates the cap, the normalisation and the ranks, Merge `_merge_candidates`, Classify `_classify_memories`, Reader the
--   messages and Pack `_pack`, whose `while` runs on as much fuel as the pool has items.
-- - Router: src/evoeventmem/router.py, from the features of a query to its intent, confidence and rule
--   hits.
-- - Prelude, Result, Float and Platform are shared: dicts in insertion order, a stable sort, exceptions
--   as values, Python's doubles, and the parameters.
-- - Tests holds sample data and the theorems at concrete inputs.
--
-- Numbers. A UUID is its 128-bit number, a time a number of microseconds since the year 1 in UTC, a
-- double the number of units of 2 ^ -1074 that it is. The operations on doubles round the exact result
-- to 53 bits, half to even; `bit_length` runs on fuel 2200, more than the bits of any double here, since
-- the values of the program stay near 1.0, which has 1075 bits. The packing runs on fuel too, one
-- unit for each item of its pool, which each round makes smaller. All other recursion is structural.
--
-- Parameters, for code that the repository does not hold: case folding and Unicode normalisation, the
-- matches of regular expressions, the texts of times and UUIDs, `json.dumps`, SHA-256, the texts of
-- validation errors, and the embedding model. The index of embeddings of linking.py, a protocol, is one
-- too, and is taken to return. The candidate generator is an argument of the consolidator, as in its
-- `__init__`. One call reads the clock once.
--
-- The functions `_cosine` of linking.py and of the repository in memory, and the quotient of
-- `_semantic_similarity`, are code of the repository over square roots of doubles. They are parameters
-- too: the theorems hold for any function in their place.
--
-- A scope, a list query and a search limit are values of the model whether or not their validators in
-- Async.Types accept them, so that the theorems hold for more of them than the program builds.
--
-- Not modelled: the regular expressions and the temporal parser of the router, the dense source and the
-- entry points of retrieval, extraction, the PostgreSQL repository, model clients, the HTTP API, logging,
-- the command line and the benchmarks. They are separate parts over the same records, or input and
-- output. Infinite and negative doubles do not occur in the modelled parts but inside the cosine.
pub mod Prelude
pub mod Result
pub mod Float
pub mod Domain
pub mod Platform
pub mod Rules
pub mod Repository
pub mod Service
pub mod Etec
pub mod Async
pub mod Linking
pub mod Tokens
pub mod Failures
pub mod Router
pub mod Retrieval
pub mod Tests
