-- ===== src/Lib.antt =====
-- quotaguard: an API rate limiter. A gateway asks once for each request whether a key may use a resource,
-- and one Redis script decides over a token bucket, a sliding window and a monthly quota.
--
-- The parts, and the files that model them:
-- - app/lua/check.lua, the admission script: Civil.antt (its calendar), Admission.antt (its steps
--   1 to 8 as functions from a reading of the store to a decision and a new store) and the modules below it.
-- - the Redis server that the scripts use: Redis.antt, one map for each kind of key.
-- - app/services/checker.py: Checker.antt. `run_check` gives the script the numbers of a resolved key,
--   decodes its reply, and `to_out` makes the answer and its headers.
-- - app/routers/check.py and the token guards of app/deps.py: Endpoint.antt, which composes the
--   lookup's answer, the checker and the outbox.
-- - app/services/keycache.py: KeyCache.antt, a lookup as two functions around its `await`; its proofs run
--   over interleavings of lookups, commits and invalidations.
-- - app/models.py: Models.antt, the rows; Database.antt, the tables as lists, the queries and the writes.
-- - app/errors.py: Errors.antt, exceptions as values and the responses of the handlers.
-- - app/services/plans.py and keys.py: Plans.antt and Keys.antt, operations on the database and the cache.
-- - app/schemas: Schemas.antt, the checks that a request passes before its handler runs.
-- - app/routers/admin.py: Admin.antt, which composes the token, the checks, the operation and the response.
-- - app/cli.py: Cli.antt, the commands with what they print and their exit codes, over the same services.
-- - app/scheduler.py: Scheduler.antt, the iterations of the two loops over the delivery and the rollup.
-- - app/redis_client.py: Registry.antt, the script registry over a server that may lose its scripts, lose
--   an answer, or not get a command.
-- - app/services/webhooks.py: Webhooks.antt, the outbox and its delivery.
-- - app/services/rollup.py, app/lua/restore.lua and unlock.lua: Pool.antt (the scans), Rollup.antt (the
--   rows, the restore, the reconciliation) and Rollup/Job.antt (the run with its lock).
-- - app/services/usage.py: Usage.antt, the report of a key's months.
-- - Prelude.antt holds what they share, and Samples.antt rows for the runs in the Tests modules.
--
-- Bounds. Numbers are unbounded naturals; where the code subtracts, the model either tests first, as the
-- code does, or the code itself replaces a negative result by 0, or the result is an integer. The script's
-- doubles are exact below 2 ^ 53, and three of its computations can round: they are
-- the parameter `Doubles` of Admission.antt. The comparison of float quotients in `selected_policy` is the
-- parameter `Ratios` of Checker.antt. Every loop is a recursion on a list, but for the digits of a number, whose
-- fuel is the number and 1 (Prelude/Splits.antt reads the number back from them), and the SCAN loops, whose
-- fuel is any number above a rank of the cursors that falls with each page (Pool/Scans.antt).
--
-- Parameters for what the program calls: sha256, HMAC, JSON, HTTP, the jitter, the random generators and
-- the clocks are arguments of the functions that use them.
--
-- SCAN's pages, SHA-1, the files of app/lua and what pydantic says of a field are parameters too.
-- `hmac.compare_digest` is equality on ASCII and an exception else.
--
-- Keys of the Redis server do not expire: the deadlines that the scripts set are recorded and never take
-- effect. A lookup's test of the generation and its write are two steps, and those of KeyCache/Freshness.antt
-- leave out an invalidation between them. A command runs in a process of its own, with its own cache.
--
-- Not modelled: the sleep and the cancellation of the scheduler's loops, argparse and the text of a JSON
-- dump, logging, configuration and the migrations; a Redis server
-- that does not answer outside the registry and the rollup.
pub mod Prelude
pub mod Redis
pub mod Registry
pub mod Pool
pub mod Civil
pub mod Admission
pub mod Errors
pub mod Models
pub mod Database
pub mod KeyCache
pub mod Checker
pub mod Plans
pub mod Keys
pub mod Samples
pub mod Webhooks
pub mod Rollup
pub mod Endpoint
pub mod Usage
pub mod Schemas
pub mod Admin
pub mod Cli
pub mod Scheduler
