-- ===== src/Lib.antt =====
-- Verification library of the WhiteQubit agent, a daemon that carries out actions on a system (firewall
-- rules, services), keeps a way back for each of them, and logs what it does.
--
-- The parts that are modelled, and the files of the repository that they follow:
--
--   Base       what the modules share: lists and numbers, the error values, finite maps for HashMap and
--              BTreeMap (an association list), and hashing as a parameter (the bytes that are fed to the
--              hasher are modelled, the hash is not).
--   Ttl        src/firewall/ttl.rs, the engine that removes firewall rules when their time is up:
--              `Ttl.Entry` the entries, `Ttl.Index` and `Ttl.Registry` the registry with its index by
--              time, `Ttl.Coordinator` which of two engines may remove a rule, `Ttl.Persister` the log
--              and its replay, `Ttl.Engine` register, cancel and extend, `Ttl.Expiry` the tick, and
--              `Ttl.Recovery` the restart.
--   Rollback   src/rollback: `Rollback.Journal` the write-ahead journal (journal.rs),
--              `Rollback.Compensator` the undoing of actions (compensator.rs), `Rollback.Recovery`
--              the recovery after a crash (recovery.rs), which calls the other two; below
--              `Rollback.Firewall` the engine that rolls firewall rules back (firewall_rollback.rs):
--              `Record`, `Registry`, `Log` its journal, `Results` and `Engine`, with what becomes of claims in
--              `Engine.Claims`; `Rollback.Checkpoint`
--              the snapshots in files (checkpoint.rs).
--   Audit      src/audit: `Audit.Entry` and `Audit.Logger` the chained entries and the calls that write
--              them (logger.rs), `Audit.Sink` the log file (sink.rs), `Audit.Integrity` the
--              verification (integrity.rs). `Audit.Immutable` is the second log, src/audit/immutable.rs:
--              `Entry` and `Builder` its entries, `Wal` the file with the entry that is being written,
--              `Merkle` the root that a checkpoint holds, `Verify` the reading of the log, `Log` the
--              appends and checkpoints with every refusal of the file system, `Open` the restart,
--              `Calls` the calls for common events.
--   Core       src/core: `Core.StateMachine` the states of the agent (state_machine.rs);
--              `Core.CircuitBreaker` and `Core.Failure` the circuit breaker, the kill switch and the
--              tracker of actions in flight (failure.rs); below `Core.Failure`, `Values` and `Config` the
--              configuration with its fallbacks, `Records` what is kept of a failure, `Coordinator` the
--              recovery at startup; `Core.Shutdown` the phases of a shutdown (shutdown.rs);
--              `Core.Alerting` the alerts for operators and the status (alerting.rs).
--   Security   src/security: `Security.Auth` who a client is (auth.rs), `Security.Policy` what it may do
--              (policy.rs), and `Security.Peers` the two together.
--   Observability  src/observability: below `Observability.Versioning` the versions of the security state
--              (versioning.rs), `Version`, `History`, `Store` and `Manager`; `Observability.Posture`,
--              `Observability.Summaries` and `Observability.Snapshot` a snapshot of the system, its
--              security version and its score (snapshot.rs).
--   Tests      each theorem of the list below at a concrete input.
--
-- An object of the program is a record of its state; a method is a function from the state to the new
-- state and an answer, and an error is a value. A name of a definition is the name of the method, unless
-- the comment above it says what it stands for. A loop over a list is a recursion on it, with the loop's
-- variables as arguments; only the loop over the levels of a Merkle tree runs on fuel, as many rounds
-- as there are hashes, which are enough. The retries of the compensator are a recursion on
-- the number that is left. Counters of 64 bits keep their wrap-around; a theorem that needs room below
-- 2 ^ 64 says so.
--
-- A file is the list of its lines, where a line is blank, does not parse, or holds a value: the JSON
-- encoding is not modelled. A write to an append-only log ends in one of three ways: it succeeds
-- (`healthy`), it fails before the line is in the file, or it fails at `sync_all` with the line there
-- (`leaves_line`); in the journal of the firewall rollbacks the outcome is chosen for each sequence number.
-- A line that is torn by a crash is met only as a line that does not parse.
-- The clock is an argument of the calls that read it. Locks are not modelled, but for the one place
-- where a method gives its lock back midway: the reading and the writing part of `log_action_prepared`
-- are two definitions, so that another call can stand between them. What the program calls outside
-- of itself (the firewall, the handlers of the compensator, the hash) is a parameter: a function on a
-- state of its own.
--
-- Not modelled: the comparison and the collection of snapshots, the actions and their executor, events
-- and IPC, the firewall's commands, the
-- startup sequence and the event loop; nor sockets, signals, system calls, metrics output and log
-- messages.
pub mod Audit
pub mod Base
pub mod Core
pub mod Observability
pub mod Rollback
pub mod Security
pub mod Ttl
mod Tests
