-- ===== src/Lib.antt =====
-- strongwiz: a control plane that keeps a reasoning model advisory. The parts and their files:
--
-- - Contracts (src/strongwiz/contracts.py): the typed values that cross the boundaries. Each record
--   has the fields of the pydantic model, and `validate_...` is its model validator, which raises by
--   returning `err`. `CostVector` compares and combines twelve costs dimension by dimension.
-- - Canonical (src/strongwiz/canonical.py): JSON values, the arguments of the content digests,
--   and Python's `==` on them.
-- - Routing (src/strongwiz/routing.py): `evaluate_proposal` runs eight guards over a proposal and
--   the control snapshot and answers with a `RouteDecision`; `select_route` chooses among several.
--   Guards has the guards, Evaluate the disposition, Select the keys and the choice. Admission and
--   Selection have the proofs.
-- - Authority (src/strongwiz/authority.py): `GrantRegistry` charges a task grant for one-use
--   permits and releases the effect of a permit, or quarantines it. Grant and Permit have the
--   records, Registry the methods as actions over the registry; a permit is an object that its
--   holder shares, so releasing it is an action over registry and permit. World has sequences of
--   calls over one registry and all its permits.
-- - Ledger (src/strongwiz/ledger.py): two tables. `append` chains a receipt behind the last one in
--   a transaction; `verify` recomputes every digest and link. Store has the calls, Verify the pass
--   over the tables, Objects, Rows, Append, Preserve, Replay and Seal the proofs.
-- - Accounts (src/strongwiz/accounts.py): accounts with versions and the residuals noted on them.
--   Records has the validators, Book `AccountBook` and its methods as actions; Lineage and Calls
--   have the proofs.
-- - Facts (src/strongwiz/facts.py): facts earned from evidence, under the version of their subject.
--   Records has the validators, Store `FactStore` with `issue` and `lookup`, Mutate and Transfer its
--   other methods as actions. A set is a list whose order no result shows. Subsets, Closure, Withdrawn
--   and Mutation have the proofs on `mutate_subject`, Grounded and Calls the invariant, Lookup what is
--   served.
-- - Goals (src/strongwiz/goals.py): one governing goal and its subgoals. Graph has `GoalGraph` and
--   its methods as actions; the keys of `_current` are kept beside the map that looks them up, for
--   `active_goals`. Rooted, Calls and Active have the proofs.
-- - Heartbeat (src/strongwiz/heartbeat.py): steering boundaries that are linked one to the next.
--   State has the records, Observe the class, Order, Chain and Trace the proofs.
-- - LabPolicy (src/strongwiz/lab_policy.py): three reviews and the rules that join them. Reviews has
--   the records, Decision and Rules `evaluate_lab_rules`, Clearance the proofs.
-- - Measurements (src/strongwiz/measurements.py): exact rationals with units, and intervals of them.
--   Quantity has the records and comparisons, on Python's integers as signs and magnitudes; Order
--   the proofs. `from_decimal` is not modelled.
-- - Orchestration (src/strongwiz/orchestration.py, and the executor of src/strongwiz/drivers.py):
--   `begin` asks router, lab rules and registry for a permit, `execute_once` spends it on one call
--   of the executor. Admission has the records, Begin and Execute the two methods as actions,
--   Checked, Warrant and Once the proofs. The executor is an interface, `ActionExecutor`: its answer to a
--   command is a function, and the commands it was called with are kept in `Bench`. The opaque
--   issuer of a call's result is left out.
-- - Planning (src/strongwiz/planning.py): `bounded_astar` over an interface of states and actions.
--   Problem has the records, Search the loop, Invariant, Rounds, Path, Loop and Answer the proofs. A
--   heap is a list of tuples from which a least one is popped: no two tuples share a serial number,
--   so the order of the pops is the heap's. `neighbors` is the finite list of what its iterable
--   yields.
-- - Policy (src/strongwiz/policy.py): the choice between fast and deep reasoning.
-- - Transport (src/strongwiz/transport.py): canonical JSON in frames with a size and a digest. Bytes
--   has the header's numbers, Frame the codec in memory, Device the streams and the clock as an
--   interface with the loops over them, Replay `ReplayGuard`. Header and RoundTrip have the codec's
--   proofs, Clock, Reading, Received, Prompt, Single and Writing those of the loops, Window, History and
--   Identified those of the guard. The lock of the guard makes each of its calls one step.
-- - Base: texts, lists, results, actions and their lemmas. Tests: examples.
--
-- The router reads a control snapshot that names a grant, and the registry charges that grant;
-- the coordinator joins router, lab rules and registry; the ledger keeps what happened. A Python
-- method that may raise is a function into `Result`, or an action `S → Result E A × S` whose
-- state survives a raise, as it does in Python.
--
-- Parameters: the content digests of proposals, actions, control snapshots, grants, reviews, lab
-- decisions, admissions, goals, accounts, facts and heartbeat records; the executor, and the name of
-- the exception that a malformed command raises; and the ledger's codec (JSON text, its strict
-- parser, SHA-256 and the reader of an envelope), whose round trips are the hypothesis
-- `IsRoundTrip`. Transport takes canonical bytes, strict UTF-8, the JSON parser and SHA-256 with
-- their behaviour as `IsWire`, and streams with theirs as `IsReader`, `IsPrompt`, `IsWriter` and
-- `IsPromptWriter`.
--
-- Bounds: Python's integers are unbounded and so are the natural numbers here. Fields that the
-- source declares nonnegative are natural numbers; a negative one, which the source refuses by a
-- validator or, in `begin`, by the grant's window, is left out. The boundary of a release is an
-- integer, as it is checked last. A number in the ledger can pass the 64 bits that SQLite keeps,
-- where the source raises. Six loops have fuel: that of `bounded_astar`, which pops one tuple a
-- round and pushes at most `max_neighbors` an expansion, has 3 + max_expansions * max_neighbors,
-- that of `_reconstruct` the goal's cost and one more, since costs fall along the parents;
-- running out is an error of its own. `gcd` has one more than the denominator, its second
-- argument, which falls in every call. The reader's loop has as much as the bytes to read and the
-- writer's as the bytes to write, since each round moves at least one; that of `mutate_subject`
-- has as much as there are active facts, since every round but the last adds one. All other loops
-- run over lists.
--
-- Not modelled: opening and closing files, the JSONL export, serialisation by pydantic, the refusal
-- to pickle a permit, and the text of most error messages, which are constructors here. The pass of
-- `verify` over the objects is in the order of the table and not of the keys: which error comes
-- first may differ, whether there is one does not.
pub mod Accounts
pub mod Authority
pub mod Base
pub mod Canonical
pub mod Contracts
pub mod Facts
pub mod Goals
pub mod Heartbeat
pub mod LabPolicy
pub mod Ledger
pub mod Measurements
pub mod Orchestration
pub mod Planning
pub mod Policy
pub mod Routing
pub mod Transport
mod Tests
