-- ===== src/Lib.antt =====
-- Collegium: the control plane (backend/app), the engine inside a thread's container
-- (worker/worker/engine) and the contracts they share (packages/contracts).
--
-- A run is a user's request. It moves through stages; the stage and the mode give the actions that the
-- console offers; an intent, clicked or typed, passes one gate. A run's threads each hold a container: a
-- spawn first acquires capacity, then mints a key at the gateway and starts the container; the run manager
-- creates, stops, abandons and resumes runs, replaces threads and sweeps dead runs at boot. Inside the
-- container the engine decides by rules whether a tool call runs, asks a human or is denied, and vets the
-- agent's requests for more threads. A card goes to the approval service and the user's decision back to
-- the engine; the worker's events go into the events table; its heartbeats keep the thread's row alive,
-- and the reaper ends what falls silent. Events of Azure DevOps open runs too, through triggers and their
-- guardrails. In goal mode a router moves a goal through its stages between the agent's turns; compaction
-- prunes the messages when they grow too long; the background terminal runs long commands; a tracker holds
-- the agent's tasks.
--
-- Which file models which part:
--   Base                 numbers, lists, text, dicts and results that the other files share
--   Contracts            packages/contracts/src/collegium_contracts: intents.py, events.py
--   Run, Run/Stages      backend/app/services/runs.py: transition, compute_available_actions
--   Intents, Intents/*   backend/app/services/intents.py: classify_text, gate_intent, the row guards
--   Capacity             backend/app/orchestrator/semaphores.py: try_acquire, _db_reserve, commit_reservation
--   Capacity/*           one process's spawns as a step relation; the reservations of several replicas
--   Engine/Permissions   worker/worker/engine/permissions.py: evaluate, decision_for_call
--   Engine/Tools         worker/worker/engine/tools/__init__.py: the capability map, mode_allowed
--   Engine/Fanout        worker/worker/engine/fanout.py: the veto, the spawn registry, its operations
--   Engine/Gate          worker/worker/engine/graph.py: approval_gate_node, _after_gate
--   Engine/Approvals     worker/worker/engine/approvals.py: ApprovalGate.request
--   Approvals/*          backend/app/services/approvals.py, backend/app/events/control.py, and
--                        worker/worker/engine/approvals.py: an approval's row and its decision's way
--   Engine/Watchdogs/*   worker/worker/engine/watchdogs.py: budget reminders, collisions, the critics' rubric
--   Engine/Compaction/*  worker/worker/engine/compaction.py: Compactor.compact, _repair_tool_pairs, SelfTuningLimit
--   Engine/Background/*  worker/worker/engine/tools/background.py: _pump_loop, kill, completed_notifications, render
--   Engine/Tasks/*       worker/worker/engine/tools/extended.py: apply_task_updates
--   Engine/Streaks       worker/worker/engine/graph.py: the stuck-loop watchdog of tools_node
--   Engine/Goal/*        worker/worker/engine/goal_mode.py, and graph.py: goal_router_node, _critic_block
--   Heartbeats/*         backend/app/services/heartbeats.py: _persist, _reap_once and what they call
--   Triggers, Triggers/*  backend/app/services/triggers.py: process, _dispatch, drain_queued, recover_stuck; identity.py
--   Ingest, Ingest/*     backend/app/events/bus.py: _process
--   Threads, Threads/*   backend/app/orchestrator/thread_manager.py: spawn, _cleanup_terminal, finish_thread; autonomy.py
--   Controls, Controls/*  backend/app/orchestrator/run_manager.py: stop, abandon, replace, resume, reconcile_on_boot
--   Launch, Launch/*     backend/app/orchestrator/run_manager.py: create_run, its checks, the failure paths
--   Tests/*              the theorems at concrete inputs
--
-- State is passed explicitly: a method takes the object and the tables that it reads, and returns them.
-- Database tables are lists of rows and queries are computed over them. An exception is the `raise` of
-- Result. Times are natural numbers, of seconds in the managers and
-- of milliseconds in the heartbeats, and amounts of money are, of millionths of a dollar. Every loop of the code that is modelled runs over a collection or a
-- number, so the models recur on these and need no fuel: the pump of a background job, a `while True`, recurs
-- on what its turns read, and the passes of the goal router on the agent's turns between them, of which
-- fourteen are enough for it to end.
--
-- Parameters stand for code that is not in the repository: `fnmatch.fnmatchcase`, the lower-casing and the
-- searches of `re` (word boundaries, DESTRUCTIVE_COMMANDS), Docker's answers, the ids of `uuid4`, the
-- answers of Redis and of the gateway, the copy of attachments, Python's `int`, `str.lower` and
-- `str.strip`, the summarizer's text, decimal texts. The gateway's client, the container manager, the
-- worker's control channel and the knowledge block are asked through a record of their answers. The
-- handlers of two kinds of trigger events (guardian, responder) are not modelled and stand as a parameter.
-- Not modelled: HTTP and WebSocket endpoints, containers and git, LLM calls, blueprints, prompts, and the
-- web console; of the run and thread managers, what other tasks do at an await is left out, but for what
-- is a parameter.
pub mod Approvals
pub mod Base
pub mod Capacity
pub mod Contracts
pub mod Controls
pub mod Engine
pub mod Heartbeats
pub mod Ingest
pub mod Intents
pub mod Launch
pub mod Run
pub mod Tests
pub mod Threads
pub mod Triggers
