-- ===== src/Lib.antt =====
-- CubePilot: the rules, names, schedules and runs of the platform.
--
-- CubePilot runs one agent instance per user. The parts below decide what an instance may execute
-- without asking, what its objects are called, when its tasks run and what a chat shows. They meet
-- in data: a user's grants are rules of the allowlist, stored in an object whose name comes from
-- the naming functions; the scheduler parses the expression of a task with the cron parser.
--
-- Allowlist: internal/allowlist/allowlist.go. `default`, `merge` (Merge, its closure being `add`
-- on the record `Merging`), `effective`, `builtin_label`, `validate`. A rule is AllowlistRule of
-- internal/api/v1alpha1/agenttemplate_types.go. regexp.Compile is an argument of `validate`.
-- Names: internal/k8s/client.go and internal/k8s/userkubeconfig.go, the functions that name
-- objects. strings.ToLower and SHA-256 are fields of `Host`.
-- Grants: internal/grants/grants.go. `key`, `list`, `truncate`, `evict` on the Data of a
-- ConfigMap; Grants.Store has Add, Remove, List and ensure over a `Cluster`, the calls of the API
-- server with the state of the world passed on; `Codec` is encoding/json on a record. What the
-- theorems ask of a cluster is the record IsLinear of Grants.Store.Linear: reads give what is
-- stored, an accepted write stores what was sent, and a retried call ends with some attempt.
-- Schedule: internal/schedule/cron.go. `parse`, `matches`, `next_after`, `next_run`. An instant is
-- a number of nanoseconds since the zero time, which is 0; `Calendar` reads its clock fields.
-- NextAfter searches 366 * 24 * 60 minutes, as the code does, so no fuel is added.
-- Scheduler: internal/scheduler/scheduler.go. `reconcile` with `next_due`, `patch_paused`,
-- `patch_next_run`, `new_task_run` and, in Scheduler.Firing, `fire` and `record_skipped_run`. What
-- the API server, the clock and the runner answer is the record `Answers`; the calls that change
-- something are the list of `Effect`, in the order in which they are made. A step is one call: what a
-- failed patch leaves in the stored Task is not told.
-- Projection: internal/server/livetools.go. `feed` folds one frame of the gateway, decoded, into
-- the events of the chat stream; in Projection.Feed `tool_event`, `item_event`, `output_event` and
-- `chat_event` are its streams, `settle` one round of finalizeAll; `feed_all` is a turn, frame
-- after frame. `cards` and `results` of Projection.Calls count the events of one call.
-- Models: `model_key` is ModelKey of internal/gateway/modelkey.go; `allow` and `model_entries` are
-- the lists that Render of internal/gateway/render.go builds; `collect` is the loop of Reconcile
-- in internal/controller/openclawconfig_controller.go, with a function that tells which Secrets
-- can be read, over the templates in the order given (the code sorts them by name);
-- `resolve_model`, `merge_instructions` and `credentials` are of internal/resolver/resolver.go.
-- Ledger: internal/store/store.go. `add_audit` and `list_audit` over a disk, a table of files; what
-- the JSON of an entry decodes to is an argument of `add_audit`. The
-- code points of a Go string are an argument, since auditFile maps them and not bytes.
-- Hub: internal/server/ssehub.go. `Step` is the step of any goroutine: Open, and the two critical
-- sections of Close, `mark_closed` and `remove`, with others possible in between.
-- Workspace: internal/instructions/policy.go and the part of internal/supervisor/supervisor.go that
-- keeps AGENTS.md: `sync_agents_file` with `reconcile_managed_block` on the file's text. The
-- operating conventions of internal/supervisor/persona.md are Workspace.Persona, line by line.
-- Approvals: internal/server/approvals.go. `resolve` is Resolve on what the gateway answers; its
-- reservations, with calls at one time, are the steps of Approvals.Reserving. Approvals.Handling has
-- the handlers, the rule that allow-always derives and its grant, and the relays of
-- internal/server/settle.go; Approvals.Gating has PreTurn and applyPolicy over a `Gateway`. What the
-- theorem asks of a gateway is the record IsComparing: reads give what is stored, an accepted set has
-- replaced a file of the hash given, and files of one hash are one.
-- Resolver: Resolve of internal/resolver/resolver.go on the record `Reads` of what the API server
-- answers; it calls `effective` of Allowlist, `list` of Grants and `resolve_model` of Models.
-- Skills: syncSkills and syncSkill of internal/supervisor/supervisor.go on a table of directories;
-- the answers of the file system's calls are the record `SkillAnswers`.
-- Questions: internal/server/questions.go. `put` and `take` are the table of routes; Questions.Serving
-- has `resolve_question`, the answer and the cancel route on the record `Answers`;
-- `handle_pending_question` restores cards; Questions.Routing runs histories over the table.
-- Stopping: internal/server/abort.go with settlePendingForSession of internal/server/settle.go.
-- `handle_abort` runs against a `Gateway`, whose calls pass on a world in which runs start and end;
-- what the theorem asks of it is the record IsHonest. waitSessionIdle recurs on the rounds that begin
-- before the end of its time, so it has no fuel of its own.
-- Turns: internal/server/live.go and the adapter of internal/server/gateway.go. `route_live` feeds
-- the projection of Projection to the turn of a session, `happen` of Turns.Histories a history of
-- events; Turns.Starting has RunLiveTurn up to the send,
-- behind PreTurn of Approvals.Gating; IsPatching is what is asked of the session's settings.
-- Connections: conn of internal/server/gateway.go over a `Dialer`, with a fuel of 22 rounds: a round
-- that is not the last waits 1.5 s of a budget of 30 s. The calls that hold the user's lock before run
-- one after another in `served`. The client's hooks are left out.
-- Prelude: text as a list of bytes, tables, sorting, Go's int of 64 bits and strconv.Atoi.
--
-- ReplaceAll and strings.Fields recurse on fuel, the length of the text: each round drops a byte.
--
-- Not modelled: the other HTTP handlers and the gateway's transport, which move bytes; the other
-- controllers, which build objects; the process, the credentials and the gateway's configuration that
-- the supervisor keeps; the web client. Log lines, metrics and error
-- texts that nothing reads are left out.
pub mod Prelude
pub mod Allowlist
pub mod Names
pub mod Grants
pub mod Schedule
pub mod Scheduler
pub mod Projection
pub mod Models
pub mod Ledger
pub mod Hub
pub mod Workspace
pub mod Approvals
pub mod Resolver
pub mod Skills
pub mod Questions
pub mod Stopping
pub mod Turns
pub mod Connections
