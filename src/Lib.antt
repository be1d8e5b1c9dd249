-- ===== src/Lib.antt =====
-- NexusQueue: a job queue on Redis and Postgres.
--
-- The program. A producer (server/src/producer.ts) writes a row to Postgres and the job's hash
-- and id to Redis: into the list of its queue and priority, or into the queue's delayed set.
-- Workers (worker/src/worker.ts) move ids from the queue lists to their own processing lists, run
-- the handler of the job's name, and complete, retry or dead-letter the job, behind a token
-- bucket for each queue (worker/src/rate-limiter.ts). A scheduler (worker/src/scheduler.ts)
-- promotes delayed jobs that are due and fires the cron jobs that worker/src/cron.ts defines, and
-- a janitor (worker/src/janitor.ts) gives the jobs of dead workers back to their queues. The
-- server (server/src/routes.ts) shows jobs, retries them and puts dead-lettered ones back, and
-- sends the events of the jobs to the sockets of the dashboard (dashboard/src), whose pages call
-- these routes.
--
-- The files.
--   Prelude   tests, texts (lists of codes), decimal numerals, the numbers that JavaScript reads
--             from texts (Prelude/Numeric), lists, integers
--   Shared    shared/src/types.ts (Shared/Types), keys.ts (Shared/Keys), db.ts (Shared/Db)
--   Services  what Redis and Postgres do: replies and rows (Services/Reply), the commands in use
--             and their effect on the keys (Services/Redis), the statements and their effect on
--             the table of infra/postgres (Services/Postgres)
--   Program   an asynchronous function as a tree of requests, with return, throw and catch. Below
--             it: the services and how a program runs among faults and other processes
--             (Program/World), the passage from any services to the documented ones
--             (Program/Transfer), and the rules to follow one job id through a program
--             (Program/Triple, Places, Keeps, Replies, Reads, Steps)
--   Worker    worker/src: Worker/Handlers, RateLimiter, Pulling and Process (worker.ts),
--             Scheduler (the delayed jobs of scheduler.ts), Cron (cron.ts and the cron jobs of
--             scheduler.ts), Janitor and Config model the code, with Lifecycle for what a worker
--             writes about itself, Loop for the loop and stop of worker.ts, Timers for the
--             intervals of scheduler.ts and janitor.ts, and Entry for index.ts, as state
--             machines; Safety, Failing, Outcomes, Attempts, Completing, Completion, Backoff,
--             Pull, Limits, Promotion, Rounds, Recovery, Lifecycle/Heartbeat, Loop/Bounds,
--             Loop/Shutdown, Loop/Ended, Timers/InFlight, Entry/Stands, Entry/Shutdown,
--             Cron/Definitions, Cron/Fired, Cron/Firing and Config/Loading prove
--   Server    server/src: Server/Producer models enqueue, Server/Auth the guards and the login,
--             Server/Routes the retry and requeue routes, Server/Reads and Server/Inspect the
--             routes that only read, Server/Submit POST /jobs with its schema and counter,
--             Server/Config config.ts, Server/EventBus websocket.ts; below them Producer/Created,
--             Producer/Enqueue, Producer/NoPayload (also the enqueue of a body without a
--             payload), Producer/Stores, Auth/Access, Routes/Requeue, Routes/Emptying,
--             Routes/Retry, Reads/Paging, Reads/Counting, Inspect/Limits and Submit/Answers prove
--   Fifo      the producer and the pulls of a worker as one machine, and the queues that it is to
--             be; Fifo/Arrivals and Fifo/Refinement prove
--   Dashboard dashboard/src: Dashboard/Socket models ws.ts, Dashboard/Api the requests of api.ts
--             with the server that answers them, and QueueDetail, JobDetail, DlqInspector,
--             JobTable and ThroughputChart the state of the pages of these names, and Feed the
--             way of a message from the socket to the last two; Socket/Single,
--             QueueDetail/Clicks, Tabs, Browsing, Buttons and Guarded, JobDetail/Retrying,
--             DlqInspector/Emptying, JobTable/Window, ThroughputChart/Counting and Feed/Delivery
--             prove
--   Tests     runs at concrete inputs
--
-- How the code is translated. Each method is a definition of its name in snake_case, cut where
-- the proofs need it: processOne is process_one, proceed, gate, start_job, dispatch and
-- run_handler; handleFailure is handle_failure, settle_failure, dead_letter and retry_later. A
-- method that changes a field of its object takes the object and gives it back. An `await` is one
-- request, and a rejected request throws. `Backend` takes Redis, Postgres and uuid as parameters,
-- with laws that say that they do what their documentation says; `Runtime` takes JSON and dates,
-- and `next_run` takes cron-parser; `Jwt` takes jsonwebtoken, and Dashboard/Feed takes JSON. A
-- run has a plan with one turn for each request to a service: the requests that other processes
-- send before it, and whether the request is dropped or loses its reply. So any plan means any
-- interleaving and any failures; `calm` is the empty plan. The clock moves in timers, the
-- program's and those of others.
--
-- In Worker/Loop the concurrency is the least count that is `>=` the configured number, or NaN
-- when no count is (`slots`): the loop only asks whether the count of active jobs is `>=` it.
-- Each event is what lets a method go on after an `await`, and `Reach` allows any events in any
-- order; a request of stop that fails is not an event. In Server/Reads the requests of a
-- `Promise.all` are sent one after the other.
--
-- Bounds. Programs are finite trees and use no fuel. Numbers in hashes are decimal numerals; any
-- other text reads as NaN. The environment is read as `Number` reads it, into doubles
-- (Prelude/Numeric): there `round_from` looks for the exponent on fuel, of which it has one for each
-- exponent of a double, and what needs more is infinite. Tokens are counted exactly, in thousandths, where the code has doubles: a
-- check whose tokens come within the rounding error of a whole token can be decided the other
-- way. maxTokens and refillRate are natural numbers, and the backoff is computed without
-- floating-point error. Job ids are UUIDs and numbers fit the INTEGER of their columns; for
-- others Postgres answers with an error that is not modelled. Keys of different kinds never meet,
-- so Redis never answers WRONGTYPE. Scores are integers. In Worker/Cron a missing payload and a
-- null one are the same.
--
-- A page of the dashboard is a machine of clicks and answers; in Dashboard/QueueDetail the
-- answers to the requests that are under way come in any order. A signal to the worker process is
-- one event, and a second one is not.
--
-- Not modelled. Key expiry other than that of idempotency keys and heartbeats; the order of sets;
-- logs; processAvailable and pullJobNonBlocking, which only tests call; checkLimit with its Lua
-- script, which nothing calls; the metrics but the counter of enqueued jobs; the wiring of
-- server/src/index.ts; the document of openapi.ts, the load tests of k6 and examples/smoke.ts; of
-- the dashboard, markup and the pages that only poll. Query numbers and those of bodies are
-- whole, and rows with one creation time keep an order. In Auth, white space is that of ASCII and
-- request bodies hold texts. In Dashboard/Api a URL is the list of its parameters, and other
-- processes leave the server alone between the requests of one click.
pub mod Prelude
pub mod Shared
pub mod Services
pub mod Program
pub mod Worker
pub mod Server
pub mod Fifo
pub mod Dashboard
mod Tests
