-- ===== src/Lib.antt =====
-- Remote control of a fleet of tablets: the logic of the backend and its properties.
--
-- The backend has four processes. The API (apps/rc-api) opens sessions and answers the console; the
-- relay (apps/rc-relay) passes the screen of a device to its viewer and input back; the ingest
-- (apps/rc-ingest) takes what devices report over MQTT into Postgres and Redis; the console
-- (apps/rc-web) shows it. All share the pure logic of packages/shared.
--
-- Files:
-- - Prelude and its children: Boolean tests, lists, signed integers, JavaScript numbers, texts,
--   dictionaries in insertion order and the sort of arrays.
-- - Shared.Types, Shared.Ttl, Shared.Keys: packages/shared/src/types.ts and redis-keys.ts.
-- - Shared.Semver: semver.ts. `parse` is `parse`, `semver_lt` is `semverLt`.
-- - Shared.Readiness: readiness.ts. `compute_readiness` is `computeReadiness`.
-- - Shared.Dashboard: dashboard.ts. Data has the results, Rows what a round of the loop finds on a row,
--   Summary the loops, `summarize_fleet` (`summarizeFleet`) and `brief_of` (`briefOf`).
-- - Shared.Json, Shared.Hw, Shared.Conn: values that devices send, and their normalization in hw.ts and
--   conn.ts. Shared.Hw.Live has the patch of the live hash, and its writing by `writeLive` of
--   apps/rc-ingest/src/ingest.service.ts.
-- - Shared.Rollout: rollout.ts. `health_problems` and `summarize_rollout` are `healthProblems` and
--   `summarizeRollout`; `place_row` is a round of its loop.
-- - Relay: apps/rc-relay/src/relay.server.ts and packages/shared/src/relay-join.ts. Each handler is a
--   function on the state `Relay`, which holds the objects that handlers share on a heap, the map of
--   sessions, the sockets, the running timers and what was sent. Relay.Events has the events and
--   `step`, one event after the other.
-- - Shared.Topics, Shared.Hash, Shared.Live: mqtt-topics.ts, hash.ts and live-hash.ts.
-- - Db: the tables of docker/postgres that several processes write.
-- - Ingest and its children: apps/rc-ingest/src/ingest.service.ts. `World` is Redis, the tables and the
--   commands sent. Live has `on_state` (`onState`), Events `on_sys` and `on_event`, Dumps `on_hw_dump`,
--   Limits `allow`, Dispatch `on_message`, which calls the others. Coherence relates the cache of
--   capabilities in Redis to the table, Resets follows a factory reset to the readiness of the
--   device, Readback what the ingest writes to what the API reads.
-- - Api.Devices, Api.Hw, Api.Access, Api.Bounds: devices.service.ts, hw.service.ts and the bounds of
--   conn.service.ts in apps/rc-api/src/devices. Api.Hw.Answered runs a dump through the API and the ingest.
-- - Api.Fleet: apps/rc-api/src/fleet/fleet.service.ts, on the summaries of Shared.Dashboard and
--   Shared.Rollout; Listing and Rollouts follow `dashboardList` for keys of a number and of a rollout.
-- - Api.Auth: auth/auth.service.ts. Api.Sync: hmdm/hmdm.sync.ts.
-- - Web: apps/rc-web/src/lib, the decoder of the stream and the throttle of the pointer.
-- - Api: Api.Sessions is apps/rc-api/src/sessions/sessions.service.ts, over the interface Api.Redis for
--   the commands of Redis; its children hold the lock of a device, the start and the end of a session
--   and the choice of a relay.
-- - Examples: tests, and the theorems at concrete inputs.
--
-- Bounds: a number is a whole number of any size or one of NaN and the infinities; fractions and the
-- rounding of JavaScript beyond 2^53 are left out. All loops are recursions on lists: none needs
-- fuel. The percentage of a rollout is in tenths of a percent, computed exactly.
--
-- Parameters: the verification of tokens (`jwt.verify`), the printing of numbers, the bytes buffered
-- in a socket, the comparison of texts by locale, and the commands of Redis for the API and the ingest; in the relay
-- the answer of Redis to `SET NX` comes with the event of a connection. Logging and the measurement of
-- the event loop are left out. The ingest and the API have the clock, SHA-1, the texts of numbers, the
-- answers of the MDM, the order of a query and ILIKE as parameters. Handlers of one process run one
-- after the other; Postgres and Redis answer every statement that is not said to fail. The start of a
-- session has the failures of its statements in `Env`; the removal of a device takes how many of its
-- DELETE statements succeed.
--
-- Not modelled: the deletion of old rows by the ingest and the queries that only aggregate rows in SQL;
-- the wiring of the frameworks; the pages of the console, which only render.
pub mod Prelude
pub mod Shared
pub mod Relay
pub mod Api
pub mod Db
pub mod Ingest
pub mod Web
pub mod Examples
