-- ===== src/Revision.antt =====
-- internal/revision/revision.go: changes of the database as revisions, and who hears of them.
-- `Broadcaster` keeps the newest revision and the subscribers, `Watcher` is the loop that reads.
pub mod Broadcaster
pub mod Watcher
mod Tests
