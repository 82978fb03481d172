-- ===== src/Queue.antt =====
-- The event queues (core/include/edgeflow/bounded_queue.hpp, lock_free_bounded_queue.hpp,
-- queue_types.hpp) and the contract that both keep (queue_concept.hpp).
pub mod Types
pub mod Contract
pub mod Bounded
pub mod LockFree
pub mod Tests
