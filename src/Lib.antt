-- ===== src/Lib.antt =====
-- A model of szl-mesh, a mesh of nodes that replicate documents and route work.
--
-- The program's parts that are modelled:
-- * src/szl_mesh/crdt.py, the replicated documents. Crdt models `Op` and `CRDTDocument`, Crdt/Sync
--   the conversion of operations from and to dictionaries; Crdt/Log has the log's invariant and its
--   updates, Crdt/Winners the loop that finds a key's winner, Crdt/Views convergence, Crdt/Merge the
--   laws of merging and Crdt/Lww what a view shows.
-- * src/sovereign/szl_mesh_agent.py, the node's side of the sovereign mesh. Agent/Ledger models
--   `JobReceiptLedger`, with proofs in Agent/Ledger/Chain, Agent/Gate `lambda_gate_check`,
--   Agent/Token `NodeHardware` and the join tokens (proofs in Agent/Token/Genuine), Agent/Registry
--   `NodeRegistry`, and Agent/Worker `MeshNodeAgent`, with proofs in Worker/Accept and
--   Worker/Credit.
-- * src/sovereign/szl_mesh_coordinator.py, the scheduler. Coordinator/Relay models `ChaskiRelay`,
--   Coordinator/Bft `KhipuBFT`, Coordinator/Tile the tiles and the methods that change single ones,
--   Coordinator/Pick the choice of a node (proofs in Pick/Least and Pick/Replay), Coordinator/Plan
--   `_pipeline_plan` (proofs in Plan/Walk and Plan/Cover), Coordinator/Dispatch `dispatch` (proofs
--   in Dispatch/Effects, Dispatch/Receipts and Dispatch/Valid), and Coordinator/Pipeline
--   `run_pipeline` (proofs in Pipeline/Budget and Pipeline/Closed). Coordinator/Layers models
--   `assign_layers` (proofs in Layers/Window, for natural numbers, and in Layers/Exact, for all
--   amounts that compute exactly with these) and Coordinator/Join `join_node` and
--   `receive_heartbeat` (proofs in Join/Joined).
-- A dispatch goes from the relay to the gate, to the choice of a node and to the ledger of routing
-- receipts, which is the agent's ledger; a pipeline run plans once and dispatches for each stage.
-- A join goes through the assignment of layers to a token that the agent's functions make, which a
-- heartbeat hands back to the agent's `verify_join_token`.
-- * mesh_command/app.py, the merge observatory. Command models `compare_clocks` and `merge_clock`,
--   with proofs in Command/Clocks, and Command/Merge `merge_snapshots`, with proofs in Merge/Groups,
--   Merge/Winner and Merge/Arrival.
-- * lab/simulator.py, the scenario runner. Lab models the replicas of a scenario, from their
--   orders of delivery to the convergence check, Lab/Scenario what is accepted as a scenario, with
--   the bounds of lab/config.py, and Lab/Simulate the sample checks and the report; proofs are in
--   the other files of Lab.
-- * src/szl_mesh/quorum.py, quorum certificates. Quorum models `verify_quorum` and the
--   certificate, Quorum/Propose `action_hash` and `propose_action`, and Quorum/Ledger
--   `CorroborationLedger`; proofs are in Quorum/Organs (the set of counting organs), Quorum/Counts,
--   Quorum/Certificate, Quorum/Subset, Quorum/Propose/Votes and Propose/Proposal,
--   Quorum/Ledger/Nodes, Ledger/Converge and Ledger/Failed.
-- * src/szl_mesh/receipts.py, receipts on state transitions. Receipts models the statement and the
--   signed receipt, Receipts/Verify `verify_receipt_signature` and Receipts/Validate
--   `validate_receipt`; proofs are in Receipts/Signer, Receipts/Gate, Receipts/Enrolled,
--   Receipts/Base64 and Receipts/Issue.
-- * src/szl_mesh/enrollment.py, the formation gateway. Enrollment models the requests, the store
--   and the registry, Enrollment/Gateway `enroll`; proofs are in Enrollment/Store, Enrollment/Enroll
--   and Enrollment/Run.
-- * src/szl_mesh/node.py, the runtime of a node, in Node: proofs are in Node/Clock, Node/History
--   and Node/Trust.
-- * src/szl_mesh/spine.py, state transitions as receipts of the shared library szl_receipt, in
--   Spine, with proofs in Spine/Bound and, for those made of a mesh receipt, Spine/Fold.
-- A node's `write` and `apply_remote` go from the document to the receipt gate, which asks the
-- registry of the gateway that the node enrolled at; the gateway is shared, so a node holds a
-- reference to it and every call is given the gateways' current state. Common holds what they
-- share: tests, lists, lawful orders, sorting, dictionaries, the maximum of a list, JSON values
-- and their truth, lists of texts as sets, the DSSE encoding and results that may be exceptions.
-- The modules called Tests run the definitions on small inputs, which the modules called Samples
-- hold.
--
-- Conventions. A method takes the object's state and returns its answer beside the new state; an
-- exception is a value of Common/Result. A dictionary is an association list in insertion order,
-- and a thread's lock makes each method one step. Readings of the clock are arguments, in ticks of
-- a clock that does not run backwards. Hashes, encodings and base64 are fields of the record
-- `Hashing` of Common/Json, the seeded random choice is the record `Random` of Coordinator/Pick
-- with the law that it chooses an element of the list, and floats are the record `Floats` of
-- Agent/Gate, whose conversion of a JSON value may raise. The floats that sizes of memory are, with
-- their sums and the rounded share of layers, are the record `Amounts` of Coordinator/Layers, of
-- which nothing is assumed but where a theorem asks for exact whole numbers. The consensus engine
-- is the records `Engine` of Quorum, with the laws that it checks each record alone, looks its
-- organ up (which raises a TypeError for a list or a dictionary) and counts only organs that have a
-- key, and `Signer` of Quorum/Propose; keys, signatures, base64 and time formats are the record
-- `Crypto` of Receipts, and HMAC and lower-casing the record `Platform` of Enrollment. URL-safe
-- base64, json.loads and the number that an expiry stands for are the record `Encoding` of
-- Agent/Token, and equality of two views the argument `same_view` of Lab/Simulate. A node's credits
-- are counted exactly, where the source adds the float 1.0. The library szl_receipt is the optional
-- record `SzlReceipt` of Spine. A set of texts is a list that is read by membership.
--
-- Loops recur on the list that they read. The loop of `_pipeline_plan` counts the source's own
-- guard down, which starts at one more than the number of UP tiles; every turn takes a tile away,
-- so the loop never ends by the guard. The digits of a length are found with the length itself as
-- the bound, which is enough since each turn divides by ten; the step in a stage's identifier
-- likewise. The loop of `run_pipeline` recurs on the planned stages, within the source's budget.
--
-- Not modelled: labels and status texts, in certificates, verdicts and the trace of a pipeline run;
-- log lines; the heartbeat's thread and an agent's construction from its configuration; the HTTP
-- interfaces, src/sovereign/api.py among them; the lab's web application and the hash of its
-- printed report; of the merge observatory, the validation by pydantic models, the routes and the
-- demo topology. The copy of khipu_consensus under src/szl_mesh/_vendor belongs to another project.
pub mod Common
pub mod Crdt
pub mod Agent
pub mod Coordinator
pub mod Command
pub mod Lab
pub mod Quorum
pub mod Receipts
pub mod Enrollment
pub mod Node
pub mod Spine
