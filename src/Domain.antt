-- ===== src/Domain.antt =====
-- internal/domain: the entities (`Models`), the states derived from them (`Status`), the graph of
-- dependencies (`Graph`), the labels of tasks (`Labels`), and the notice of releases (`Update`).
pub mod Models
pub mod Status
pub mod Graph
pub mod Labels
pub mod Fixtures
pub mod Update
mod Tests
