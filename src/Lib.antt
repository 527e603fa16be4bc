-- ===== src/Lib.antt =====
-- MARK (mark-sdk) is the memory of an AI agent in one SQLite file: fragments of text and the edges
-- between them, facts with two time axes, blocks of fragments that are sealed in a hash chain, and
-- the jobs that keep the memory small. This library models its core, src/mark, and proves what
-- makes it correct.
--
-- The parts and how they interact. Everything that an agent remembers is a fragment (Types). The
-- store keeps fragments, nodes, edges, blocks and block members (Blocks.Store,
-- Maintenance.Listing). Sealing a block hashes its members and links it to the agent's last sealed
-- block; verify recomputes the hashes from the store (Blocks). The maintenance jobs delete,
-- promote, decay and merge fragments of the same store, and ask the sealed membership before they
-- touch one (Maintenance); consolidation asks a gate first, such as that of Governance. Facts are
-- statements about a subject with a time at which they are true and a time at which they were
-- recorded (Facts); they are drawn from fragments by workers that share a durable queue (Queue). A
-- timeline shows the facts of a subject among the fragments that name it (Timeline). Documents are
-- cut into chunks, each stored as a fragment (Documents). What is recalled goes into a prompt
-- through a budget of tokens (Context). Agents share messages with levels of trust on a bus
-- (TrustBus). Every statement on the database passes a gate that close waits for (Store). Plugins
-- add hooks (Plugins), embeddings are cached (Embeddings), the actions of a learned policy are
-- filtered (Learning), and the redaction rules check the numbers that they match (Security).
--
-- Which file models which part:
--   Types         src/mark/types/memory_enums.py and memory_fragment.py: Enums has the states and
--                 their transitions, Fragment the record with transition_to, mark_contradicted and
--                 touch, Lifecycle the step relation that they make.
--   Facts         src/mark/store/_sqlite/facts.py and facts_multi.py: Table has the rows and the SQL
--                 predicates, Select the shared selections and _rechain_facts, Ops the methods
--                 fact_set, fact_add, fact_remove, fact_retract, fact_current, fact_scheduled,
--                 fact_as_of and fact_history. Chain, Invariant, Keeps and Retracts are about the
--                 chains and Runs about any sequence of writes, Import is
--                 src/mark/store/_sqlite/fact_import.py with its proof in Imported, Writes and Again
--                 about what a write leaves, AsOf about reads, and InForce, Effect, Kept and
--                 Asserted about a read after a write.
--   Blocks        src/mark/memory/block_hashing.py (Hashing), src/mark/store/_sqlite/blocks.py
--                 (Store), src/mark/memory/block_chain.py (Chain) and
--                 src/mark/memory/block_membership.py (Members). Verdict, Seal and Tamper are about
--                 one block, Holds, Links and Extends about the chain.
--   Maintenance   src/mark/memory/working.py (Working), consolidation.py (Consolidation) and
--                 deduplication.py (Deduplication), src/mark/plasticity (Plasticity), and the rows
--                 of src/mark/store/_sqlite/fragments.py, fragment_reads.py and graph.py that they
--                 read and write (Listing). Sealed, Away, Jobs, Pruning, Nodes and Merging carry the
--                 proofs about sealed blocks, Runs puts the jobs in a sequence. Provenance,
--                 Accounts, Seeds and Survivors are about what deduplication keeps, Counts and Decay
--                 about one job.
--   Queue         src/mark/store/_sqlite/fact_jobs.py: Table has the two tables, Ops the methods.
--   Plugins       src/mark/plugins/registry.py.
--   Embeddings    src/mark/embeddings/cache.py.
--   Learning      src/mark/rl: safety.py (Safety) and buffer.py (Buffer, with its proof in Window).
--   Governance    src/mark/middlewares/governance: gates.py, pipeline.py and audit.py (Gates);
--                 Consolidating puts the gate into consolidation.
--   Security      src/mark/security: the Luhn test of checksums.py (Checksums) and the _spans of
--                 windows.py (Windows). Typos is about the test, Merged and Hints about the spans.
--   Context       src/mark/context/budget.py (Budget). Fits is about the bound, Kept about what the
--                 budget leaves, Cut about the cut of a text.
--   Store         src/mark/store/_sqlite/gate.py (Gate); Runs has the steps of threads through it,
--                 with _statement and close of connection.py. Running, Leaving and Closing are about
--                 them.
--   TrustBus      src/mark/middlewares/trust_bus: messages.py (Messages) and bus.py (Bus), with the
--                 publish_sync of src/mark/memory/global_bus.py. Trusted has the proofs.
--   Timeline      src/mark/memory/timeline_order.py (Order), timeline_build.py and the latest of
--                 timeline.py (Events). Clocks and Placed are about the order, Folding and Shown
--                 about the facts, Latest about the newest event.
--   Documents     src/mark/documents/chunking.py: _pack, _tail and _join (Packing), with the proof
--                 in Packed.
--   Prelude       what the modules share: lists and their sorting, tables with a primary key, dicts,
--                 results.
--
-- How it is modelled. A table is the list of its rows in the order of insertion, a SELECT is a
-- filter and a stable sort, an UPDATE maps the rows with an id, and a method is one transaction:
-- it returns the next table beside its result, or the error, and then the table is as it was. A
-- Python dict is an association list in insertion order. Times are UTC instants as natural numbers
-- (microseconds where the code subtracts them), importances, confidences, weights and factors are
-- millionths. Clocks, drawn ids and the process id are arguments. Loops run over a list that they
-- have in hand, but for three that have fuel. In Context.Budget the search for the longest cut has
-- the length of the text, and the loop that drops items has their number; in Security.Windows the
-- search for a hint, which is not empty, has the size of the text. Each round makes the text or
-- the list that is left shorter, so that is enough, as the theorems of Context.Cut, Context.Fits
-- and Security.Hints show.
--
-- What is a parameter. Code that is not in the repository: SHA-256 over canonical JSON
-- (Blocks.Hashing), exp (Maintenance.Plasticity), HMAC (TrustBus.Bus), Python's text methods,
-- hashlib and re (Governance.Gates, Security.Checksums, Security.Windows, Context.Budget,
-- TrustBus). The wrappers of such code: the encryption and JSON form of a fact's value
-- (Facts.Ops), and the test that a process is alive, which asks the operating system (Queue.Ops).
-- Floating-point cosines of embeddings (Maintenance.Deduplication). What the program passes in:
-- the gate and the sanitizer (Maintenance.Consolidation, Governance.Gates), the embedding provider
-- (Embeddings.Cache), a plugin's hooks and on_register (Plugins.Registry), the token counters
-- (Context.Budget, Documents.Packing) and the rendering of an item (Context.Budget), the clocks of
-- an item (Timeline.Order). What the bus's memory stores of a message is an argument too
-- (TrustBus.Bus), and so are the fragments and facts that a timeline reads (Timeline.Events). What
-- a theorem needs of one, such as decryption after encryption or hashes that do not collide, is a
-- hypothesis of that theorem. Stored values are taken to decrypt, as those written under the
-- store's own key do; the errors of decryption are left out.
--
-- What is not modelled: SQLite itself, files, threads but around the statement gate,
-- floating-point rounding, the text rules (extraction, redaction, injection), retrieval and its
-- scores, the context builder and watcher, the media memory, the middlewares beside governance and
-- the trust bus, the adapters and the command line. They are input and output, calls of models and
-- services, or heuristics over natural language without a stated contract, or they wait for their
-- own modules.
pub mod Prelude
pub mod Types
pub mod Facts
pub mod Blocks
pub mod Maintenance
pub mod Queue
pub mod Plugins
pub mod Embeddings
pub mod Learning
pub mod Governance
pub mod Security
pub mod Context
pub mod Store
pub mod TrustBus
pub mod Timeline
pub mod Documents
