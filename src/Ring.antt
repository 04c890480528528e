-- ===== src/Ring.antt =====
-- The bounded single-producer, single-consumer rings: SpscTelemetryRing
-- (cpp/include/mm/telemetry_ring.hpp) and ShmRing (cpp/include/mm/shm_ring.hpp). An atomic load or store
-- is a read or a write of the state; each call runs alone here.
pub mod Queue
pub mod Spsc
pub mod Shared
pub mod Capacity
mod Tests
