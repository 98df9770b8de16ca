-- ===== src/Domain/Graph.antt =====
-- internal/domain/graph.go: `Derive` has what tasks show and wait for, `Cycle` the search for a
-- cycle, and `Order` the topological order.
pub mod Derive
pub mod Cycle
pub mod Order
