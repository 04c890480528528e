-- ===== src/Session/Refines.antt =====
-- The handlers of a session (cpp/src/session.cpp, cpp/src/session_close.cpp) take no other steps than
-- those of Session/Machine.
pub mod Quiet
pub mod Closing
pub mod Pumping
pub mod Enqueues
pub mod Handlers
