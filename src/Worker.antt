-- ===== src/Worker.antt =====
-- The worker, which claims jobs and evaluates submissions: apps/worker, cmd/labkit-worker and
-- internal/runtime. What evaluation stores is modelled by Evaluation, the queue by Jobs.
pub mod Paths
pub mod Workspace
pub mod Container
pub mod Handler
pub mod Loop
pub mod Handled
pub mod Stored
pub mod Held
pub mod Progress
pub mod Staging
pub mod Directory
pub mod Staged
mod Tests
mod Archived
