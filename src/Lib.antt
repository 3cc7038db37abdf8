-- ===== src/Lib.antt =====
-- Revoot, a code review agent: models of its core crate, crates/revoot-core, and what holds of them.
--
-- The program. A review is driven by an engine in crates/revoot, which reads a merge request, asks a
-- model provider for findings and publishes them. The core crate holds what must be right whatever
-- the provider answers: the life cycle of a review and its budget, the validation of what crosses
-- the provider's boundary, the validation and the rendering of findings, and the execution graph
-- that orders the work. Before the engine starts, diffs become the lines that may be commented on
-- (diff.rs), and the evidence of a snapshot is assessed and its anchors are made (snapshot.rs).
--
-- The models.
--   Agent: crates/revoot-core/src/agent.rs. Limits are the limits of a budget (AgentBudgetLimits),
--     Budget its ledger (AgentBudget), Invocation what is asked for (ReviewInvocation), Outcome the
--     data, Run the life cycle (AgentRun), Turn a provider turn (complete_provider_turn). The calls of
--     a review as steps are in Steps.
--   Provider: crates/revoot-core/src/provider.rs. ModelRequest::validate and the CancellationToken.
--   Findings: crates/revoot-core/src/findings.rs. FindingsEnvelope::validate, with the checks of
--     text in Content, and render_finding in Render. Ranking has the keys and ranks of findings,
--     Pipeline validate_rank_and_render. Entries, Passed, Traced, Ranked and Sorted prove
--     what holds of it.
--   Graph: crates/revoot-core/src/execution_graph.rs. Plan compiles a plan (ExecutionGraphPlan),
--     Data has the state (ExecutionGraph), and Graph its transitions. The other modules prove
--     what they are named for: Invariant, Moves, Contributed, Outcomes, Cancel, Steps, Progress and Final for the
--     graph; Compiled, Release, Queue, Acyclic, First, Order and Lookups for its plan.
--   Diff: crates/revoot-core/src/diff.rs, the parser of one file's diff. Lines splits the input
--     (validated_lines), Preamble reads what comes before the hunks (parse_prelude), Header the headers
--     of hunks, Hunk has the account of a hunk's two sides (HunkAccounting), Rounds the loop over its
--     lines (parse_hunk), Digest what is hashed of them, Parser the loop over the hunks and the parser.
--     Hunks says what a hunk is, by its lines; Consumed, Marks, Parts, Ends, Added and Sound lead from
--     one line to the whole input, Account and Ending to the results, Calm to the panics. Received says
--     what the lines are of the input, Declared what a header is, Commented what is commented on.
--   Snapshot: crates/revoot-core/src/snapshot.rs. Snapshot has the identity of what is reviewed, Change
--     the changed paths and their blobs, Position the positions of lines, Pages the evidence of
--     pagination, Binding bind_latest_snapshot, Evidence the data of an assessment, Assess and Blobs
--     SnapshotEvidence::assess, Anchors the table of anchors. Bound, Clear, Paths, Observed, Complete,
--     Sorted, Search and Resolved prove what holds of them.
--   Publication: crates/revoot-core/src/publication.rs. Markers has PublicationMarker, Lineage
--     FindingLineageMarker, Notes the comments that are there and their markers (terminal_marker,
--     from_body). Parsed and Terminal prove that what is rendered is found again; Hex has the
--     characters of digests.
--   Hash: what is fed to a hasher (hash_field of diff.rs and snapshot.rs).
--   Set: `BTreeSet` and `BTreeMap` of values with a key, which are lists in the order of the keys; a key
--     holds the rank of a variant and its fields, as derived orders compare them.
--   Text and Map: `str` and `BTreeMap` of the standard library, as far as the crate uses them. A text
--     is the list of its characters' codes; its length is that of its UTF-8. A map is the list of its
--     entries in the order of the keys.
--   Prelude: the names that all models share.
--
-- How code becomes a definition. A method on `&mut self` takes the state and returns its result with
-- the new state, also on an error, since what was written before an error stays written. Functions
-- keep their names; `stale`, `blocked`, `failed` and `cancelled` of AgentRun are end_stale,
-- end_blocked, end_failed and end_cancelled, `try_new` of a plan and of a node id are Graph.Plan.plan
-- and Graph.Plan.node_id. Integers are natural numbers: checked and saturating arithmetic is
-- written out with the greatest value of its type, and a subtraction that saturates is that of the
-- natural numbers.
--
-- Interfaces. A provider adapter is an argument: a function from a request and the shared token
-- to an answer and the token, which others may cancel meanwhile. So is the hook that admits
-- candidates. JSON values are a parameter, with a test for objects and the length that
-- serde_json writes; so are the two tests that are made of a temperature. SHA-256 is a parameter: a
-- function from the bytes that were fed to a hasher to a digest, of which nothing is assumed, but
-- that it writes 64 lowercase hexadecimal digits where the marker of a lineage is read back. The lower
-- case of a text, in the key of a finding, is a parameter too.
--
-- Bounds. `usize` has 64 bits. The loop of validate_acyclic runs on fuel, one round more than there
-- are nodes, since a round takes one of them out. The loop of parse_hunks runs on fuel, one round more
-- than there are lines, since a hunk takes one of them at least. Every other loop is a structural
-- recursion. A cursor into the lines is kept with the lines from it on. A slice that cuts a character in
-- two is a failure of its own, `panicked`, beside the errors that are returned. The binary
-- search of a table of anchors compares the anchor in the middle and goes on in one of the two parts, on
-- fuel, one round for each anchor, since a round takes one of them out.
--
-- Not modelled. The rest of the core crate: partition of work, egress, the plan of publication and
-- its journal, history, repository reads, configuration, evaluation and GitLab's wire format.
-- crates/revoot, which does input and output.
-- Derived serde code, Display and Debug.
pub mod Prelude
pub mod Text
pub mod Map
pub mod Set
pub mod Graph
pub mod Hash
pub mod Snapshot
pub mod Diff
pub mod Findings
pub mod Provider
pub mod Publication
pub mod Agent
