-- ===== src/Shm.antt =====
-- The flat messages and the ring of cpp/include/mm/shm_ring.hpp.
pub mod Messages
