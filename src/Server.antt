-- ===== src/Server.antt =====
-- ServerImpl (cpp/src/server.cpp, cpp/src/server_impl.hpp): the telemetry pump, the shutdown and the
-- feed driver, on the one owner thread. A timer's completion is a call of its handler.
pub mod Snapshot
pub mod Shutdown
pub mod Driver
pub mod Aggregate
pub mod Feeding
mod Tests
