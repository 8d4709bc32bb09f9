-- ===== src/Lib.antt =====
-- A model of the engines of Clartt Capital, an automated trading platform, and of what makes
-- them correct. The strategy engine (packages/strategy-engine) runs agents that research,
-- convert and test strategies; the execution engine (packages/execution-engine) checks signals
-- against risk rules, places orders with brokers and follows the positions. Both are Python,
-- talk over Redis and share a circuit breaker around calls that may fail.
--
-- Which file models which part:
-- - Breaker.antt and Breaker/: src/circuit_breaker/circuit_breaker.py of both engines, which
--   have the same file. The class is the record CircuitBreaker; transition_to, on_success,
--   on_failure, on_probe_success, on_probe_failure and execute_closed, execute_open,
--   execute_half_open, execute are its methods without the leading underscore.
--   Breaker/Concurrent.antt cuts execute at the call of fn, into admit and settle, and admit
--   between the test and the write of _probe_in_flight, into glance and mark_probe, for callers
--   on several threads.
-- - Agents/Models.antt: the enumerations and records of
--   packages/strategy-engine/src/agents/models.py that the other modules use.
-- - Agents/StateMachine.antt and below: packages/strategy-engine/src/agents/state_machine.py.
--   AgentStateMachine holds the fields that the methods write; a method gives the new machine
--   and the exception, if any.
-- - Agents/TaskQueue.antt, Agents/TaskQueue/Methods.antt and the other files there:
--   packages/strategy-engine/src/agents/task_queue.py. A World is the Redis database and the
--   events handed to the publisher; submit, dequeue, complete, fail, cancel, check_timeout and
--   get_queue_depth are the methods, with the helpers persist_task, load_task, with_status
--   (_update_status), retry_with_backoff and move_to_dlq.
-- - Agents/Equity.antt and below: packages/strategy-engine/src/agents/equity_monitor.py, the
--   pause of an account by its drawdown.
-- - Agents/KillSwitch.antt and below: packages/strategy-engine/src/agents/kill_switch.py, the
--   global switch, the switches of single agents and the guard can_accept_task.
-- - Agents/Approval.antt and below, Agents/Autonomy.antt: packages/strategy-engine/src/agents,
--   approval.py and autonomy.py. ApprovalGateManager is the functions over a World of Redis and
--   recorded notices; Approval/Records.antt has the records, Methods.antt the requests and their
--   resolution, and Expiry.antt has check_expiry and list_pending.
-- - Backpressure.antt and below:
--   packages/strategy-engine/src/backpressure/backpressure_monitor.py, the hysteresis that holds
--   a publisher back.
-- - Trading/Models.antt: the models of the execution engine
--   (packages/execution-engine/src/models).
-- - Trading/Risk.antt and below: packages/execution-engine/src/risk/risk_manager.py, the seven
--   checks before an order.
-- - Trading/Lifecycle.antt and below:
--   packages/execution-engine/src/lifecycle/trade_lifecycle_manager.py, from an entry over its
--   stop loss and take profit to the exit. The executor is the interface Executor.
-- - Trading/KillSwitch.antt and below:
--   packages/execution-engine/src/kill_switch/kill_switch_monitor.py, the cached state of the
--   global kill switch and its listener.
-- - Trading/ExitRules.antt: packages/execution-engine/src/models, exit_rules.py and
--   instrument_specs.py.
-- - Trading/Positions.antt and below: packages/execution-engine/src/monitor/position_monitor.py.
--   Models.antt has TrackedPosition and the arithmetic on prices; Broker.antt what the monitor
--   calls, with _modify_sl, _close_position and _client_for_account; Rules.antt the blocks of
--   _evaluate_position, as break_even, trailing_stop, atr_trailing_stop, partial_close and their
--   composition apply_rules; Cycle.antt and Reconcile.antt the dictionary of positions and a
--   cycle over it, check_all_positions.
-- - Trading/Brokers.antt: packages/execution-engine/src/executor/clients/base.py, the
--   categories, the providers and BrokerRouter.
-- - Trading/Orders.antt and below: packages/execution-engine/src/executor/trade_executor.py.
--   Broker.antt has the interface of the clients, the events and _connect_with_retry;
--   Execute.antt has execute and _execute_broker_call, cut into send_attempts, conclude and
--   submit; Change.antt has modify_order and close_position. The circuit breaker is that of
--   Breaker/Concurrent.antt.
-- - Trading/Consumer.antt: packages/execution-engine/src/consumer/signal_consumer.py. A Call
--   either ends or waits for ever, which a read with BLOCK 0 can do.
-- - Trading/Worker.antt and below: packages/execution-engine/src/worker/account_worker.py.
--   process_one_cycle is _process_one_cycle, cut where the source numbers its steps; it calls
--   consume of the consumer and validate of the risk manager.
-- - Trading/Worker/Setup.antt, Rehydrate.antt, Synthetic.antt and Simulate.antt: what the worker
--   of account_worker.py reads when it is made, its listener of assignments,
--   _rehydrate_positions, and simulate_signal.
-- - Trading/Supervisor.antt and below: packages/execution-engine/src/worker/supervisor.py. A run
--   is a sequence of the sections that hold the lock.
-- - Trading/Autopilot.antt and below:
--   packages/execution-engine/src/autopilot/autopilot_monitor.py, which the strategy engine has
--   a copy of. Worker/Consent.antt joins it to the worker.
-- - Trading/Candles.antt and below: packages/execution-engine/src/candles/candle_service.py,
--   get_historical, which collects a history page by page from the newest.
-- - Strategy.antt and Strategy/: packages/strategy-engine/src/strategy/signal_helpers.py, the
--   session windows in Sessions.antt, the other guards and the position size in Guards.antt.
-- - Redis.antt and Redis/: the commands of the Redis server that these classes send, as records
--   of operations with the laws that the server documents, and databases in memory that have the
--   laws. Floats.antt is the same for Python's floats. Common.antt holds the shared names, tests
--   and lemmas.
--
-- Conventions. Times are natural numbers, in the unit that the module names, and every reading
-- of a clock is an argument, so a theorem holds for clocks that stand still or go back where it
-- does not say otherwise. Subtractions of times are written as additions on the other side of a
-- comparison. Exceptions that leave a method are values of its result; exceptions that the
-- source catches and logs, and that end nothing else, are left out, and so is logging and the
-- metrics. A publication is recorded in the order in which it is sent. Loops go over the list
-- that the source iterates over or, in attempts, over the attempts that are left, of which there
-- are three. The loop over the pages of candles runs on fuel, one more than its first cursor:
-- every turn lowers the cursor. The drain of a worker runs on fuel, one more than the messages
-- with a signal before the first without one: every turn reads one.
--
-- Not modelled: the backend and the front end (TypeScript), the agents themselves with their
-- pipeline, tools and language models, the strategy algorithms and confluence filters,
-- build_signal, the streams of candles, the broker clients and the routers, and the loop run of
-- a worker, which only repeats its cycle. list_tasks of the task queue only reads.

pub mod Common
pub mod Floats
pub mod Redis
pub mod Breaker
pub mod Agents
pub mod Backpressure
pub mod Trading
pub mod Strategy
