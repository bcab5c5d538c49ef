-- ===== src/Lib.antt =====
-- TaskFlow: a task API in Node (backend/src), its report worker, and the browser client
-- (frontend/src). An Express request passes the middleware, reaches a controller, which asks the
-- database through a model, records what it did in the audit log and publishes an event. A report
-- is a job that the API puts on a queue and that a worker of its own builds and mails. The browser
-- keeps two tokens and renews them.
--
-- How the code is modelled. A handler is a function from the world (database, event stream, audit
-- chain) to an outcome and the next world: `Handler` of Http, with do blocks. A `return` of a
-- response and an exception both end it. Most files run one handler after the other. For requests
-- and jobs at the same time the code from one `await` to the next is a step of a `Process` (Async),
-- and the steps of many processes interleave by any schedule: Task/Concurrent, Auth/Concurrent (the
-- renewal of tokens) and Report/Concurrent. The requests of one page interleave by its events. A
-- JavaScript value that may be null or undefined is an Option; where an empty text or 0 counts as
-- missing, the definition says so. Numbers are natural numbers. A text that is hashed, split or
-- joined is a list of code units (`Text`), the others are native strings.
--
-- The files and the code:
-- - Audit models backend/src/utils/audit.js and backend/scripts/verify-audit.js. Json is the value,
--   `canonical` and its printing; Chain is `audit`, `fromRequest` and `verifyChain`; Script is the script;
--   Linked, Emission, Grouping, Verify, Tamper and Transport hold the proofs.
-- - Http models backend/src/utils/responseHelper.js and what an Express handler may do.
-- - Service models the answer of a Supabase query, the world of the controllers, and `publishEvent` of
--   backend/src/events/eventStream.js.
-- - Async is what a process with `await` is and how processes interleave: Steps and Permits are rules
--   for what each step keeps, and Serial relates a process to its handler.
-- - Task models backend/src/controllers/task.controller.js, backend/src/models/task.model.js and the
--   dispatch of backend/src/routes/task.routes.js (Requests). Tables says what PostgREST documents
--   of the two tables, the trigger that logs deletions included; Memory meets it. Concurrent has the
--   handlers as processes, Alone says what each is without others, and Calls, Rules, Interleaved and
--   Chained what holds with them.
-- - Auth models backend/src/controllers/auth.controller.js (Steps, Controller),
--   backend/src/models/user.model.js (Accounts),
--   backend/src/utils/jwt.js and backend/src/utils/password.js (Secrets), and the dispatch of
--   backend/src/routes/auth.routes.js (Requests). Stable carries a property of the database through
--   every request. Concurrent has `refresh` as a process.
-- - Report models backend/src/services/report.service.js (Build, Worker) with
--   backend/src/services/email.service.js (Mail), and
--   backend/src/controllers/report.controller.js with backend/src/queue/reportQueue.js (Jobs).
--   Concurrent and Exclusive have many attempts at one job at the same time. Station and Told model
--   backend/src/workers/report.worker.js, metricsServer.js beside it, the queue's options and
--   connection (backend/src/queue) and the shutdown in backend/worker.js.
-- - Gate models backend/src/middleware/authenticate.js, authorize.js and errorHandler.js.
-- - Events models `startConsumer` of backend/src/events/eventStream.js (Consumer, Delivery) and the
--   reports service's handler in backend/src/events/reportsConsumer.js (Reports, Audited).
-- - Config models `getConfig` of backend/src/config/env.js: its credentials, secrets, proxy and role
--   (Environment, Secrets) and its settings with their defaults (Settings); and the client of
--   backend/src/config/supabase.js (Supabase).
-- - Limits models backend/src/middleware/rateLimiter.js (Limiter, Quota) and the health of Redis in
--   backend/src/config/redis.js (Health, Watch).
-- - Server models the way of a request through backend/src/app.js and the routers of
--   backend/src/routes, with backend/src/middleware/validate.js and requestId.js and
--   backend/src/controllers/health.controller.js (Validate, Routes, App, Pipeline), and what is logged of
--   a request, with backend/src/utils/logger.js (Logging); Guarded carries a
--   property of the database and the queue through every request, and EndToEnd uses it. Lifecycle models
--   backend/server.js, and Metrics models backend/src/middleware/metrics.js, podInfo.js beside it and
--   backend/src/config/metrics.js.
-- - Client models frontend/src/services/api.js, one request at a time (Session, Kept) and many at once
--   with the promise that they share (Tab, SingleFlight, Settles, Told),
--   frontend/src/hooks/useAuth.js and the form of frontend/src/pages/AuthPage.jsx (Session, Account),
--   and frontend/src/hooks/useTasks.js (Board, Rows).
-- - Forms models frontend/src/components/TaskModal.jsx (TaskForm) and the schemas of
--   backend/src/models/task.model.js (Schema) and backend/src/models/user.model.js (Accounts); Trim is
--   the trim of JavaScript, and Accepted compares the form with the schemas of tasks. Server has the
--   schemas as functions from a body to the values that the controllers take.
-- - Page models the handlers of frontend/src/App.jsx (Toasts) and frontend/src/pages/Dashboard.jsx with
--   the dialog of frontend/src/components/ConfirmDialog.jsx (Dashboard, Honest), and the dates of
--   DeletedLog.jsx and TaskCard.jsx in frontend/src/components (Times). Html is the tree that a
--   component renders; Parts has frontend/src/components, Frame and View the dashboard, Screens
--   AuthPage.jsx and App.jsx; Offers reads from a page what can be clicked.
-- - Prelude models shared lemmas on lists, texts, Booleans and sorting.
-- A component's Tests holds runs at concrete inputs and each theorem at one of them.
--
-- Parameters, since their code is not in the repository: the Supabase client, Redis and its
-- streams, BullMQ, the HMAC and SHA-256, JWT, bcrypt, random ids, the clock and its dates, the mail
-- server, the floating-point arithmetic of the completion rate, Express with its body parser and
-- express-rate-limit, zod, and `fetch`. What a theorem needs of one is a record of documented laws
-- among its hypotheses, and the tests have an instance of each such record.
--
-- Loops are structural recursion. The one fuel is that of `decimal`, which prints a number by its
-- last digits: a number n has at most n + 1 digits, which is the fuel it is given.
--
-- Not modelled: the other calls of the logger, and how Winston and AsyncLocalStorage carry them out; the registry of
-- prom-client, which gets the observations of Metrics and Station; the headers other than
-- X-Pod-Name, preflight requests and the API's /metrics; the forced end of the worker's process; the
-- sign-ups, log-ins and log-outs of others between the steps of an authentication request, and its
-- audit records there; of React, the styles that do not depend on the state, the delays of
-- animations and the keys of lists; the SQL, the deployment and the load tests, which are data and
-- scripts for other programs.
pub mod Prelude
pub mod Async
pub mod Audit
pub mod Auth
pub mod Client
pub mod Forms
pub mod Page
pub mod Config
pub mod Events
pub mod Gate
pub mod Http
pub mod Limits
pub mod Server
pub mod Service
pub mod Task
pub mod Report
