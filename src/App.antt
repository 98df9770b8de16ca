-- ===== src/App.antt =====
-- internal/app: the operations of the application, over a repository that keeps the state.
-- `Repository` is the boundary, `Archive` the guards, `Overrides` the partial updates, and the
-- others the operations on each kind of entity.
pub mod Repository
pub mod Archive
pub mod Overrides
pub mod Containers
pub mod Tasks
pub mod Documents
pub mod Snapshots
pub mod Barrier
pub mod Sync
mod Fixtures
mod Tests
