-- ===== src/Session.antt =====
-- A WebSocket session (cpp/src/session.cpp, cpp/src/session_close.cpp and its class in
-- cpp/src/server_impl.hpp), on the one owner thread. Asio and Beast are outside: what a completion
-- brings is an argument of its handler, and what a session asks of them is kept in order in its `io`.
pub mod State
pub mod Tests
pub mod Events
pub mod Close
pub mod Reports
pub mod Commands
pub mod Reads
pub mod Runs
pub mod Machine
pub mod Refines
pub mod Safety
pub mod Wire
pub mod Spares
pub mod Latching
pub mod Rejects
pub mod Pairing
pub mod Sequencing
pub mod Progress
pub mod Convergence
