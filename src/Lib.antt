-- ===== src/Lib.antt =====
-- The recall core of OpenCAW, which keeps a language model's workspace within a token budget: text
-- is cut into chunks, chunks are recalled as fragments, and fragments are admitted and evicted.
--
-- Prelude is what the other modules share; Prelude.Float is the interface for `f32`, of which the
-- theorems use only the laws that they name, and Prelude.Sort the stable sort. Core is the data of
-- crates/caw-core/src/lib.rs: a text is the list of its bytes, an id or a path is a native text.
--
-- Text models the operations of `str` on bytes, with the code point boundaries of UTF-8 and the
-- white space of Unicode. What is found and split is in Text.Find, and decimal numbers are in
-- Text.Decimal. The loops of `split`, `lines` and `strip_fake_recall_blocks` have the text's length
-- as fuel, which is enough since each round takes a byte at least.
--
-- Chunking is crates/caw-ingest/src/chunking.rs: `chunk_by_lines` in Chunking, `split_oversized`,
-- `chunk_by_items` and `chunk_document` in Chunking.Document. The tokenizer is a parameter, and the
-- item spans of tree-sitter are an input. The loop of `chunk_by_lines` has the text's length as
-- fuel, which is enough since each round takes a byte at least; `split_oversized` recurses on the
-- levels that are left of its three.
--
-- Scheduler is crates/caw-core/src/scheduler.rs: the loops of `schedule` are recursions on their
-- lists, over the record Pass of its locals, and the map of scores that the code keeps in a RefCell
-- is passed and returned.
--
-- Reindex is crates/caw-core/src/reindex.rs: each critical section of the queue is a function on its
-- state, and Reindex.Fifo runs them in any order. The condition variable is not modelled: a
-- receiver that waits takes a turn that changes nothing. `run_worker` has fuel, and reports whether it
-- returned or was still running when the fuel ended.
--
-- Degradation is crates/caw-orchestrator/src/degradation.rs: the health of a component as a state
-- machine, the window of probes, and the operating tier.
--
-- Dynamic is crates/caw-orchestrator/src/dynamic.rs: the fields of the orchestrator that make up its
-- workspace, `load_fragments` with the upgrade of a stub to its body in Dynamic.Load,
-- `evict_stale_fragments` with its notes in Dynamic.Evict, the decay of scores, `reset_session` and
-- `coverage_first_order`. Dynamic.Load.Steps runs these operations in any order. The retriever, the
-- tokenizer and the notes of the store are the record Services, and a retriever's documented
-- behaviour is IsRetriever; the consolidation is the record Consolidator, with
-- `MechanicalConsolidation` of consolidation.rs as one of them. The order in which a hash map is
-- walked is the order of its list. A workspace is lax when fragments may be without a relevance score
-- and above the cap of their source: what a line reference admits gets no score and is not capped.
--
-- Dynamic.Turn is `run_turn` of the same file, with all that it calls, as actions of a monad of
-- state, errors and panics (Dynamic.Turn.Monad). Hits is the weighing of the first hits and the list
-- of candidates, Retry `complete_with_retry` and `run_with_passive_injection`, Signals what is read
-- out of an answer, Scores the scores of fragments and answers, Refine the iterations, Journal the
-- record in the session, and Run the turn from the first retrieval on. The model, the embedding provider, the
-- index, the session file, the regular expressions and the tables of Unicode are the record Models; a
-- generation with passive injection is a tree, which shows its windows of tokens and is told what to
-- inject. The loop over attempts recurses on the attempts that are left, and the refinement on
-- `max_recall_iterations`. The prompt that
-- `build_system_prompt` writes and logging are left out, but for the debug line that subtracts numbers
-- of fragments, which panics in the model where `checks_debug_lines` is set.
--
-- Recall is crates/caw-orchestrator/src/lib.rs, probe_recall.rs and thinking_trace.rs: the
-- orchestrators that recall through a budget scheduler, which is the interface
-- Scheduler.Interface, with the greedy scheduler as an instance. A stream of thinking is a tree, which
-- shows its steps and is told whether to go on. The restarts, and the rounds of probes in
-- Recall.Turns, recurse on the number that the configuration leaves them.
--
-- Session is crates/caw-orchestrator/src/session.rs: the text that a turn appends to its file, how
-- that text is read back, the compression of an answer and the date. The loop over the years has the
-- days as fuel, which is enough since a year takes 365 of them at least.
--
-- Dynamic.Turn.Scores also has `tokenize_terms` of crates/caw-core/src/provenance.rs.
--
-- Ranges, Intent and Response are parts of crates/caw-core/src/lib.rs: `Range` with its notation and
-- what it selects, the vote on a query's intent, and the extraction of a JSON object, of recall blocks
-- and of thinking from a model's answer. JSON itself is read by a library and is not modelled.
-- Ranges also has `extract_token_range` of crates/caw-core/src/tokenizer.rs; the library's tokens are
-- the record Bpe, which also says if the build checks a sum for overflow.
--
-- Expansion is `plan_expansion` of crates/caw-index/src/graph_edges.rs, with the order in which the
-- hash map yields its values as a parameter, and `stub_for_byte` in Expansion.Geometry. The edges come
-- from a table, which is not modelled.
-- FlatIndex is crates/caw-index/src/flat_index.rs, the search of the nearest points.
--
-- Curation is crates/caw-curation/src: `partition_turns`, the budget of the system prompt and the
-- pipeline; the summarizer and the compressor are fields of CurationPipeline. Its specification counts
-- words by `split_whitespace`, which stands in Text.Format, apart from the loop of `estimate_tokens`.
--
-- Not modelled: storage, embedding, HTTP and process I/O (crates/caw-adapters, crates/caw-server,
-- crates/caw-cli, crates/caw-bench, crates/caw-llama-sys, crates/caw-index/src/storage and
-- embeddings), the regular expressions of crates/caw-transform, the metrics of crates/caw-eval, BM25 and
-- the fusion of scores in crates/caw-index, and machine overflow of `usize` and `u64` sums, which the
-- lengths of texts and token counts do not reach, but for the sum of a token range.
pub mod Prelude
pub mod Core
pub mod Text
pub mod Ranges
pub mod Intent
pub mod Response
pub mod Expansion
pub mod FlatIndex
pub mod Scheduler
pub mod Session
pub mod Chunking
pub mod Degradation
pub mod Reindex
pub mod Dynamic
pub mod Recall
pub mod Curation
