-- ===== src/Lib.antt =====
-- LabKit: a model of the submission platform of a course.
--
-- A student signs an archive of files; the API takes it in (apps/api), a row and a job are stored in
-- PostgreSQL, a worker claims the job (apps/worker), runs the evaluator's container and stores the
-- result of its last line of output, with scores, quota and leaderboard. The parts that both sides
-- share are in packages/go.
--
-- Files and the code they are about:
--   Db            the tables and the queries on them: packages/go/db/sqlc (generated from db/queries).
--                 Rows: models.go; Submissions, Jobs, Bonus, Board: one function for a query;
--                 Devices: the tables of users, keys and device requests (auth.sql.go); Labs and Grades:
--                 labs.sql.go and grades.sql.go; Lookup: reading a row after an update
--   Jobs          packages/go/jobs: Queue.Enqueue, Claim, Acknowledge, Retry (enqueue, claim,
--                 acknowledge, retry). Claim: the pick of the next job; Valid: well-formed tables;
--                 Lifecycle: sequences of calls; Ownership and Holder: who may finish a job; Refine and Moves: an
--                 abstract queue
--   Manifest      packages/go/manifest: normalize, Parse, Validate (Validate.antt), Public. Metrics,
--                 Correct and Normal hold the proofs
--   Evaluator     packages/go/evaluator: ExtractLastLine, ParseResult, ValidateResult, ValidateScores.
--                 LastLine, Extract and Protocol hold the proofs
--   Evaluation    apps/worker/internal/service/evaluation: MarkRunning and Persist. Quota: the states
--                 of the quota; Publish: scores and leaderboard; Effects and Settled: a whole Persist;
--                 Refund: the bonus; Total: when it succeeds
--   Auth          packages/go/auth: Payload, Verifier and (Nonce) the store of nonces. Accepted: which
--                 requests are accepted
--   Submissions   apps/api/internal/service/submissions: Files (validateFiles, parseMaxSize), Keys
--                 (GetUserKeyByFingerprint), Quota (quota.go), Intake (Service.Intake); and Archive of
--                 apps/api/internal/storage/artifacts.go. Upload, Accept, Entry, Refused, Limits and
--                 Usage hold the proofs
--   Sessions      apps/api/internal/service/websession: CreateTicket and ConsumeTicket with a repository.
--                 Ticket: what a ticket is good for
--   Board         apps/api/internal/service/leaderboard: resolveMetric, isVisible, and of GetBoard the sort
--                 and the ranks. Order and Sorted: what they come to
--   Devices       apps/api/internal/service/auth: device_flow.go and web_login.go. Flow: one statement;
--                 Final and History: sequences of calls; Bind: a callback that succeeds
--   Worker        apps/worker: Handler (Handle of cmd/labkit-worker), Loop (Loop.Run of internal/runtime),
--                 Workspace (archives and directories, with Paths), Container (DockerRunner). Handled
--                 and Stored: one job; Held and Progress: a loop; Staging, Directory and Staged: the way of
--                 the files
--   Labs          apps/api/internal/service/labs: RegisterLab, UpdateLab, ListPublicLabs, GetPublicLab.
--                 Structure: sameStructure; Rows and Stored: what the rows keep
--   Grades        apps/api/internal/service/grade: ImportGrades with planColumns and buildGradeParams,
--                 PublishGrades, DeleteGrades, GradeStatus, GetGrade, ListGrades. Plan: the columns;
--                 Import: the rows
--   Admin         apps/api/internal/service/admin: Reevaluate, ResetLabQuota, AdjustBonusQuota and
--                 ResetBonusQuota. Copies, Reevaluated and Adjusted: what they do to the
--                 tables
--   Prelude       numbers, lists, texts, maps and results that the parts share
--
-- How the code is read: a table is a list of rows in the order of insertion and a query a function on
-- it; a service takes the tables and returns its result with the tables that are committed; an error is
-- a value. An operation that calls the driver or the store takes `fails`, which says which of these calls
-- return an error, so that each error path can be taken. A transaction that does not commit leaves the
-- old tables. Times are numbers of nanoseconds with 0 for Go's zero time, UUIDs are numbers, Go's `int`
-- is an integer without bound (the quotas and counts are far from 2^63). Code points and bytes are
-- numbers. All loops are over lists, so that there is no fuel.
--
-- Parameters, for code that is not in the repository: the decoders and encoders of JSON and TOML, float64
-- with strconv.ParseFloat, unicode.ToUpper, ed25519.Verify and the SSH parser of keys, SHA-256, tar and
-- gzip, encoding/csv, strings.ToLower, the hash and the form of the artifact key, the days of a time zone, the OAuth provider, docker and the calls
-- of the file system.
--
-- Not modelled: the HTTP layer, the command line client, the web interface, configuration, the removal of
-- containers and directories, the migrations, and so far the rest of GetBoard, the service for
-- profiles, and of the administration what only reads (ExportGrades, QueueStatus, GetLab). Two transactions are not interleaved statement by statement: a claim
-- takes the set of rows that another one locks, and the advisory lock of Intake is one call that may fail.
-- A save of an artifact that fails leaves the store as it was, while os.WriteFile may leave a part of the
-- file; a bonus that leaves the range of int4 is among the failures of its statement.
pub mod Prelude
pub mod Db
pub mod Jobs
pub mod Manifest
pub mod Evaluator
pub mod Evaluation
pub mod Auth
pub mod Submissions
pub mod Sessions
pub mod Board
pub mod Devices
pub mod Worker
pub mod Labs
pub mod Grades
pub mod Admin
