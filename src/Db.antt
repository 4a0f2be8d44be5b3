-- ===== src/Db.antt =====
-- The PostgreSQL tables (db/migrations) and the queries on them (packages/go/db/sqlc, generated
-- from db/queries): one record for a row, one function for a query. A table is a list of rows, in
-- insertion order; a UUID or a BIGSERIAL is a number, a timestamp a number of nanoseconds, and
-- `now` is the transaction's NOW().
pub mod Rows
pub mod Submissions
pub mod Jobs
pub mod Bonus
pub mod Board
pub mod Devices
pub mod Labs
pub mod Grades
pub mod Lookup
pub use Rows.*
