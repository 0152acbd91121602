-- ===== src/Lib.antt =====
-- The cognitive execution engine (src/cee_core): a task is deliberated on and becomes a plan of
-- revision deltas and tool calls; a policy decides on each of them, a person may have to approve, and
-- what is done goes to an append-only event log, from which the state of the world is replayed.
--
-- The parts, with the files that they model (paths from the repository's root):
-- World: src/cee_core/world_schema.py (Schema) and src/cee_core/world_state.py (State: the record and
-- its queries; Update: one function per operation). Change gathers the operations in one type, so
-- that a property speaks of all of them. A state id is a text `ws_n`, and the next one is computed
-- from the number behind the last underscore, which may raise.
-- Commitment and Revision: src/cee_core/commitment.py, src/cee_core/revision.py, and in Policy the
-- policies of src/cee_core/commitment_policy.py and src/cee_core/revision_policy.py.
-- `revise_from_commitment` gives the revision event and the revised state.
-- DeltaPolicy: the policy on deltas of src/cee_core/planner.py (`evaluate_delta_policy`), with the
-- overlay of a domain (src/cee_core/domain_context.py, src/cee_core/domain_plugins.py).
-- Tools: src/cee_core/tools.py, the registry and the policy on calls.
-- Approval: src/cee_core/approval.py. A provider is a record of two actions on a world `W`.
-- Observation: src/cee_core/observations.py with src/cee_core/belief_update.py.
-- Task and Deliberation: src/cee_core/tasks.py (Compile has the compilation of raw text), and
-- src/cee_core/deliberation.py.
-- EventLog: src/cee_core/events.py and src/cee_core/event_log.py. Replay has the loop over revisions
-- and deltas, Replay/Targets what a delta does by the kind of its target.
-- Planner: src/cee_core/planner.py. `execute_plan` acts on the log; Tasks has `plan_from_task`.
-- Gateway: src/cee_core/tool_gateway.py. `execute` (Run) acts on the log and on the world of the
-- handlers; handlers and provider are parameters.
-- Runner: src/cee_core/tool_runner.py, the runner of read tools, with the gateway's handlers.
-- Flow: src/cee_core/tool_observation_flow.py, which takes a read call through the runner to an
-- observation and a revised belief, and runs the read calls of a plan.
-- Schemas: src/cee_core/schemas.py, the version check of payloads. Serial: `to_dict` and `from_dict`,
-- with one child for each class, over the world, commitments, revisions, their policies' decisions,
-- reasoning steps, deliberation events, plans and tasks. Primitives: src/cee_core/primitives.py.
-- Memory: src/cee_core/memory_types.py and src/cee_core/memory_store.py, with the files of a store
-- beside its index; Memory/Promotion: src/cee_core/memory_promotion.py, with Pipeline for the steps.
-- Hypotheses: src/cee_core/hypothesis.py, with Router for src/cee_core/uncertainty_router.py.
-- Workflow: src/cee_core/workflow.py, the runner of steps, with Condition for their conditions.
-- Reality: src/cee_core/reality_interface.py, the contact of a commitment with the world, and in
-- ByGateway the contact through the tool gateway.
-- Examples: concrete inputs, tests, and the theorems applied to them.
--
-- Prelude has the shared helpers (texts, decimals, the keys of a dictionary), Value the dynamically
-- typed values, Outcome the exceptions and Exec the methods that change state and may raise, where
-- the state written before a raise stays.
--
-- How the code is read: dataclasses are records, literal types are data types with one more
-- constructor for other texts, dictionaries are association lists in insertion order. Floats are a
-- type `F` with the operations of `Platform`, which also has `str`, `json.dumps` and `json.loads`;
-- a theorem that assumes a law of them states it. Ids and times that the code draws are arguments.
-- White space is Python's, in all of Unicode. Phrases are searched in lower case, as far as that meets
-- the letters of a phrase. Constant fields (`event_type`, schema versions) are left out of the records and stand in
-- the payloads. The JSON text of a memory file is taken as the payload that is read from it, with
-- lists for tuples (Value/Json), and the parser of conditions and the comparison of values are
-- parameters. All loops are structural recursion on lists, except the deliberation chain, which runs
-- for the number of rounds that the code gives it.
--
-- Not modelled: the interactive approval on a terminal, the language model adapters, the tool executor
-- with its threads and limits, the keyword search and the retrieval of memories, the hypothesis
-- engine, the runtime, simulation, persistence, and the network and command line interfaces. Payloads
-- whose values have other types than the fields are outside the model of `from_dict`: its readers
-- raise a type error there, where the code stores what it finds.
pub mod Prelude
pub mod Outcome
pub mod Value
pub mod World
pub mod Commitment
pub mod Revision
pub mod Tools
pub mod DeltaPolicy
pub mod Exec
pub mod Approval
pub mod Observation
pub mod Task
pub mod Deliberation
pub mod EventLog
pub mod Planner
pub mod Gateway
pub mod Runner
pub mod Schemas
pub mod Serial
pub mod Primitives
pub mod Flow
pub mod Memory
pub mod Hypotheses
pub mod Workflow
pub mod Reality
pub mod Examples
