-- ===== src/Lib.antt =====
-- Kagura agent: the membrane between an AI agent and the outside, and the cockpit from which a human
-- steers it. The library models the parts that decide what an agent may do.
--
-- Membrane (src/kagura_agent/membrane/):
--   * lease.py is Membrane/Lease.antt: `Budget`, `Lease`, the ledger and each operation of
--     `CredentialBroker` under its own name; `MemoryCloudProvider.requires_write_approval` of
--     providers.py is with it. A lease is a value that the caller hands in, and the broker believes it:
--     a made-up lease that denies that its token is to be revoked (stateful=False) can drop a live
--     token from the ledger, so histories renew and release genuine leases only, `IsGenuine` of
--     Membrane/Lease/Safety.antt. `container_env` is Membrane/ContainerEnv.antt.
--   * granted_broker.py is Membrane/Granted.antt: the broker behind a task's grants, which calls the
--     broker of Membrane/Lease.antt. The grants themselves, `Grant`, `GrantSet` and `parse_grants` of
--     registry.py, are Membrane/Grants.antt.
--   * graduation.py is Membrane/Graduation.antt: when a category of work is proposed for automation.
--   * the rest of registry.py, `parse_registry`, is Membrane/Registry.antt: the operator's tables of
--     providers, validated.
--   * verified_outcome.py is Membrane/Outcome.antt: the verdict on a run.
--   * egress.py and egress_proxy.py are Membrane/Egress.antt: the allowlist that the launcher checks and
--     stamps on a container, and the proxy that reads it.
--
-- Cockpit (src/kagura_agent/cockpit/):
--   * approval.py is Cockpit/Approval.antt: the requests for a capability that wait for a human.
--   * registry.py is Cockpit/Sessions.antt: the table of the sessions.
--   * intent.py and `click_authorized` of transports/base.py are Cockpit/Operator.antt.
--   * core.py is Cockpit/Core.antt: what `Cockpit` does with requests, typed approvals, kills and
--     status queries, on the registry of Cockpit/Approval.antt and the table of Cockpit/Sessions.antt;
--     `record_decision` of hitl.py is with it. The transport, the memory service, the launcher and the
--     clock are functions on a world. The brain that it selects for a thread is Cockpit/Serve.antt, its
--     loop over the events and its tasks are Cockpit/Serve/Loop.antt, over the sessions of
--     Core/Session.antt, the containers of Core/Container.antt, the launcher of Membrane/Launcher.antt
--     and the prompt of Patterns/Prompt.antt.
--   * `HitlGate` of hitl.py is Cockpit/Hitl.antt; a question to the human that fails is a value.
--   * memory_write.py is Cockpit/MemoryWrite.antt, over the cockpit of Cockpit/Core.antt and the engine of
--     Membrane/Graduation.antt. What happens during a wait is a parameter.
--
-- Patterns (src/kagura_agent/patterns/):
--   * `ProvenanceLog` of erasure.py is Patterns/Provenance.antt: which memories grounded which session.
--   * `forget_cascade` of erasure.py is Patterns/Erasure.antt, over the local memory of Mcp/Local.antt,
--     the log of Patterns/Provenance.antt and a checkpoint store whose `delete` may raise; its loops are
--     structural, over the sorted sessions and the tagged memories.
--   * `InMemoryCheckpointStore` of checkpoint.py is Patterns/Checkpoint.antt, `_decode_checkpoint` is
--     Patterns/Checkpoint/Decode.antt, the stores on disk and in the cloud are Patterns/Checkpoint/File.antt
--     and Patterns/Checkpoint/Cloud.antt. The disk and the service are functions on a world.
--   * failure_learning.py is Patterns/FailureLearning.antt, over the local memory and the engine of
--     Membrane/Graduation.antt; `run_repl` of continuity.py is Patterns/Continuity/Repl.antt.
--   * `drive_task` and `ground_and_run` of continuity.py are Patterns/Continuity.antt, over the local memory,
--     its bootstrap of Mcp/Quarantine.antt, the log of Patterns/Provenance.antt and the sessions of
--     Core/Session.antt.
--   * `prepare_bootstrap_prompt`, `ground_prompt` and `load_guardrails` of continuity.py over any memory client
--     are Patterns/Prompt.antt.
--   * reinforce.py is Patterns/Reinforce.antt: a verdict on a run goes to the memories that grounded
--     it. It uses `measure_outcome` of measure.py, which is with membrane/verified_outcome.py in
--     Membrane/Outcome.antt. The memory client and the command runner are functions on a world.
--
-- Launcher (src/kagura_agent/membrane/launcher.py):
--   * `validate_spec` and its checks are Membrane/Launcher.antt, `docker_run_args` is
--     Membrane/Launcher/Args.antt. The file system is a parameter. The loop over the directories of a
--     subtree has fuel for 50002 rounds, one more than the directories that the cap on entries lets in.
--
-- Secrets (src/kagura_agent/membrane/secret_source.py):
--   * The resolution of a reference is Membrane/SecretSource.antt. The environment, the files and the
--     keychain are parameters.
--
-- Memory clients (src/kagura_agent/mcp/memory_cloud.py):
--   * `LocalMemoryClient` is Mcp/Local.antt, the verbs of the agent and those of the host.
--   * `QuarantinedMemoryClient`, which a confined agent is given, and `compose_agent_bootstrap` are
--     Mcp/Quarantine.antt.
--   * rest_bootstrap.py is Mcp/RestBootstrap.antt, the fields of an answer, and its child Lanes, the whole
--     answer and the client. An answer is a JSON value; the call is a function on a world.
--   * `memory_reachable` and `ensure_memory_reachable` are Mcp/Reachable.antt; the probe is a parameter.
--
-- Core (src/kagura_agent/core/):
--   * session.py is Core/Session.antt: `Session` drives a brain through a task and saves a checkpoint.
--     The brain and the checkpoint store are functions on a world.
--   * brain/container.py is Core/Container.antt: the lines that the host and a brain in a container exchange,
--     and the provider that drives the container. What the container writes is a list of lines.
--
-- Evaluation (src/kagura_agent/eval/bootstrap_ab.py):
--   * Tasks, snapshots and `validate_corpus` are Eval/Corpus.antt and its child Tasks; regular expressions
--     are a parameter.
--   * The checks of `BootstrapEnvelope` are Eval/Envelope.antt; `ArmPair`, `ArmHandle` and `VersionStamp`
--     are Eval/Arms.antt.
--   * `_gate` is Eval/Gate.antt. Floats are a type with comparison and arithmetic, and what holds of them
--     but for NaN is `IsOrdered` of Eval/Gate/Peaks.antt.
--
-- Prelude holds what they share: results and actions, dictionaries with text keys, text methods, JSON
-- values, which Python's json module, a parameter, reads and writes.
--
-- An operation that changes state takes the state and returns the new one beside its result, also
-- when it raises. A component's exceptions are a data type of its own. Where the source awaits, the
-- operation runs through: calls of one broker or registry do not interleave inside an operation, and
-- histories are sequences of operations. The providers are code at cloud services: records of
-- functions on a world that the model does not look into, with what the broker relies on of them in
-- `IsContract` of Membrane/Lease/Tokens.antt. Clock readings and durations are whole ticks, so a
-- negative ttl is not modelled. White space and letter case are those of ASCII. All recursion is
-- structural but for one loop of the launcher, which has enough fuel.
--
-- Not modelled: the chat transports, the command line, the rest of the evaluation harness, the clients of the
-- memory services over MCP and SQLite, the calls of Docker and of language models, logging.
pub mod Prelude
pub mod Membrane
pub mod Cockpit
pub mod Patterns
pub mod Core
pub mod Mcp
pub mod Eval
