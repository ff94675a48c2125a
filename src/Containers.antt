-- ===== src/Containers.antt =====
-- internal/containers/mpmc: the queue.
pub mod Queue
