-- ===== src/Lib.antt =====
-- Capisco: the sidecar that runs coding agents behind a capability broker, and the parts of the
-- app that steer it. Each agent capability is authorized by the broker, which asks the policy
-- engine, writes the audit log and mints single-use execution grants; what the engine cannot
-- decide is parked in a registry until a human answers; sessions and their transcripts are kept in
-- a store; the ticket lifecycle starts sessions and pushes a ticket's status through the broker;
-- the router picks the model of a session; child processes run under a supervisor; the app calls
-- the providers of the sidecar through a pair of peers and a registry; the app's workspace store
-- keeps queued messages, drafts and settings.
--
-- Broker/Contract: app/src/contracts/broker.ts, agents.ts and tooling.ts, as far as the broker
--   reads them. Reasons of decisions are constructors, by the text that each one prints.
-- Broker/Policy: app/sidecar/broker/policy-engine.ts. decide, resolve and revoke_task are the
--   methods decide, resolve and revokeTask; the engine's private maps and the module's request
--   counter are fields. Budgets are natural numbers, which are the source's numbers below 2^53.
--   The platform, the separator and the Unicode operations are the field host, and no law of them
--   is assumed. Its children prove what clears a request (Gate), which targets a scoped grant
--   covers (Scope), the action budget (Budget), what an answer persists (Issue), revocation
--   (Revocation), decisions that a human vouches for (Vetted) and the invariant of the persisted
--   grants (Validity).
-- Broker/Audit, Broker/Vault: app/sidecar/broker/audit-store.ts and in-memory-secret-store.ts,
--   with isRtkFiltered of app/src/contracts/rtk.ts. The observers of the log and the listing of
--   names are not modelled.
-- Broker/Chokepoint: app/sidecar/broker/capability-broker.ts. admit is execute up to the callback,
--   which may call the broker again. Its children state what an admitted request holds (Gate), how
--   a call changes the state (Change), the invariant (Invariant), that what is allowed can be
--   executed (Execution), what an authorize has decided (Decided), and properties of histories of
--   calls (Trace). A fingerprint is the array that the source passes to JSON.stringify, which is
--   injective on arrays of strings and flags.
-- Permissions: app/sidecar/acp/pending-permission-registry.ts. Promises, listeners and timers are
--   numbers; the calls of settle and of the listeners are logged. A subscription holds the number
--   of its listener set. Children: Settlement (how often a promise is settled), Authority (by
--   whom) and Subscribers (who hears a session).
-- Routing, Routing/Live, Routing/Escalation: app/src/lib/model-routing/router.ts,
--   app/sidecar/model-routing/live-router.ts and escalation.ts. The session run and the quality
--   gate are parameters. The loop runs on fuel, and three passes are enough, since each one but
--   the last climbs one of three tiers (Ceiling). Tiers has the theorems on decisions.
-- Sessions: app/sidecar/session/in-memory-session-store.ts. Maps keep insertion order; values are
--   immutable, which stands for the clones that the store hands out. Children: Tree (transcripts
--   and branches), Copies and Search (on UTF-16 code units, with toLowerCase as a parameter).
-- Lifecycle: app/sidecar/task-forge/ticket-lifecycle.ts over the broker and the session store.
--   Providers, the human resolver and what performStatusWrite throws are parameters; the resolver
--   is awaited, so it may return another broker. Children: Writeback (the external write) and
--   Launch (the local run).
-- Supervisor: app/sidecar/supervisor/process-supervisor.ts. Processes are numbered objects, so
--   that the events of a process that was replaced are still delivered; timers are numbered, and
--   one whose handle was overwritten still fires; spawning a child does not fail. Output and the
--   adapters of back ends are not modelled. Children: Restarts and Registry.
-- Agents: the broker seam of app/sidecar/acp/acp-session.ts. on_agent_request is #onAgentRequest;
--   the resolver is a parameter that gives the decision and the broker as it is by then, and the
--   side effect is a parameter that may throw. Children: Mediation (what is performed), Steps and
--   Approval (what an answer does), Transcript (the notifications: apply_event and
--   flush_agent_message are the methods of these names, over the session store; the handler of a
--   notification is not awaited: it applies its event at once and goes on at any later turn,
--   begin_notification and resume_notification) and Watchdog (app/sidecar/acp/stall-watchdog.ts,
--   with the time of each call). start, which spawns the agent's process, is not modelled.
-- Connections: app/src/lib/sidecar/protocol/jsonrpc.ts and peer.ts, with
--   app/sidecar/registry/registry.ts (Registry). A client's operations are request, ingest, on,
--   off and close; the server's are ingest_requests, reply and push_event. The transport is what
--   the peers see of it, and the handler is a relation between a call and its answer. A response
--   may carry a null error, which makes the client throw; its promise is then logged as stranded.
--   Children: Correlation and Closing (how often a promise is settled) and Wire (a client and a
--   server over one transport, refining remote calls; Failing has the steps that answer no call).
-- Streams: app/src/lib/sidecar/protocol/ndjson.ts (Ndjson) and the StringCoalescer of
--   app/sidecar/ipc/coalescer.ts (Coalescer), on lists of code units, and its LatestCoalescer
--   (Latest). JSON.parse is a parameter; the loop of the decoder runs on the length of the buffer
--   as fuel, which is enough, since each pass shortens the buffer.
-- AgentsStore: app/src/shell/agents/store.ts, what the agents and the chat workspaces remember.
--   Texts are lists of code units; ids of queued messages, checkpoints and saved prompts are their
--   numbers; the counter of messages is shared with another workspace, whose messages are steps of
--   their own (take_id). The summary of a handed-off transcript is an argument, and the middleware
--   that keeps a part of the state in the browser is not modelled. Children: Settings (the plain
--   setters), Queue (queued messages), Fifo and Order (the lists that the queues stand for), Tidy
--   (bounds) and Ids (ids of sessions).
-- Prelude: shared names, maps as association lists (Dict), text (Text), tables of promises
--   (Promises) and the outcome of stateful code that may throw (Effect). A throw keeps the changes
--   made before it.
-- Tests: concrete inputs.
--
-- Not modelled: the views of the user interface, sockets, the processes of agents, the execution
--   layers over git, language servers, containers and debuggers, and the adapters to services, all
--   of which are input and output.
pub mod Prelude
pub mod Broker
pub mod Permissions
pub mod Routing
pub mod Sessions
pub mod Agents
pub mod AgentsStore
pub mod Lifecycle
pub mod Supervisor
pub mod Streams
pub mod Connections
pub mod Tests
