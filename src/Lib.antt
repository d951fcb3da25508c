-- ===== src/Lib.antt =====
-- SmartMonitor back end: a FastAPI service between electricity meters (MQTT) and their owners.
--
-- Parts
--   Base        names and lemmas that the other modules share: Boolean tests, equality of keys,
--               dictionaries, rows of a table, text, errors of handlers.
--   RateLimit   app/rate_limit.py. One deque of times per key; `check` cleans up, pops, decides and
--               records (`InMemoryRateLimiter.check`), and the routes enforce three limits.
--   IngestionCache   app/ingestion_cache.py. The last measurement of each channel, in memory.
--   ClaimProofStore  app/claim_proof_store.py. Proofs that a device is claimed with: registered by the
--               device, then reserved and committed (or released) by the claim.
--   AlarmService     app/alarm_service.py. Occurrences of alarms, which the snapshots in state messages
--               raise, refresh and clear.
--   Authorization    app/device_authorization.py. Roles and actions.
--   DeviceIdentity   app/device_identity.py. Which device a state message speaks for.
--   MqttContract     app/mqtt_contract.py. The shape of commands and responses, on JSON values.
--   CommandSecurity  app/command_security.py. The policies of commands, and who may send them; it uses
--               Authorization and DeviceIdentity's patterns.
--   Database    app/models.py. The tables as lists of rows, newest first, with the constraints that an
--               insertion checks, and the unit of work (`transact`: commit or roll back).
--   Transfer    the ownership transfer. Stage is app/device_transfer_store.py (reset challenge and
--               staging, with Proof for app/factory_reset_proof.py and Notice for
--               app/device_transfer_notice.py), Finalize is app/device_transfer_finalizer.py,
--               Broker is app/device_transfer_broker_worker.py, which calls it, Guard is
--               app/device_transfer_guard.py, Ownership is app/measurement_ownership.py, Archive is
--               app/device_transfer_archive.py and Inbox is app/device_transfer_inbox.py. System takes
--               the operations on challenges and transfers as steps on one database.
--   MeasurementContract  app/measurement_contract.py. Which electrical values are stored.
--   PowerSummary  app/power_daily_summary.py. The summary of a completed day is rebuilt.
--   Devices     app/devices.py. The claim of a device, over the store of ClaimProofStore and the
--               database; Members is the list of the accounts that read a device.
--   LiveState   app/device_live_state.py. Blocks, Alarms and Snapshot read a state message; Store
--               keeps the latest snapshot of a device and the last value of each field.
--   HistoryRecovery  app/local_history_recovery.py. Pages and acknowledgements; Persist is the
--               repository, which uses the two before and the checks of Records; Recover is the loop over the pages of a
--               device; Coordinator is the queue between the scheduling threads and the worker, as
--               steps.
--
-- Correspondence
--   Functions keep the names of the source. A handler is a function from its arguments, the current
--   time and the database to a `Result` and the database after it; an exception is a value of `Error`.
--   Times are natural numbers (microseconds for the database, nanoseconds for `monotonic()`), and a
--   difference of times that the source compares is written as a sum on the other side, or taken once
--   it is known not to be negative. Locks and row
--   locks make each operation one step; Broker has two databases, since it asks the broker without a
--   lock. Each `do` block follows the order of the source's checks.
--
-- Bounds and fuel
--   `str_ℕ` (decimal digits) runs on the number itself as fuel, which exceeds its count of digits. A
--   recovery of the history recurs on the 256 rounds of its loop. The rounding to a double doubles one
--   side of a quotient at most 80 or 1024 times: quotients are 0 or at least 2 ** -28, and `float()`
--   has refused integers of more than 1024 bits. All other recursion is structural.
--   Python integers are unbounded, so no arithmetic wraps, except for `pack(">I", n)`, where the range
--   of the argument is checked before.
--
-- Parameters
--   SHA-256, HMAC-SHA256, the Europe/Paris time zone and the answer of the broker are arguments of the
--   definitions that use them, and so are the device behind a recovery of the history and the figures
--   of a daily summary. A finite float of a message is known by its text, and what the live state asks
--   of it is a parameter. `lower()` is that of ASCII characters. Random identifiers
--   are inputs of the call that draws them.
--
-- Not modelled
--   MQTT and HTTP transport, accounts and sessions with password hashing and tokens, e-mail, the
--   configuration of alarms, the dispatch and signing of commands, energy consumption, tariffs, the
--   queries of the history and the retention of data, the lists of devices, archives and notices,
--   settings, migrations and tools. Foreign keys are not checked at an insertion, since the modelled
--   code inserts references to rows that it has just read.
pub mod Base
pub mod RateLimit
pub mod IngestionCache
pub mod LiveState
pub mod ClaimProofStore
pub mod AlarmService
pub mod Authorization
pub mod DeviceIdentity
pub mod MqttContract
pub mod CommandSecurity
pub mod Database
pub mod Transfer
pub mod Devices
pub mod MeasurementContract
pub mod PowerSummary
pub mod HistoryRecovery
