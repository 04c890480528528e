-- ===== src/Frame.antt =====
-- The shared frame authority of both codecs (cpp/src/frame_preflight.cpp, cpp/include/mm/codec.hpp).
pub mod Utf8
pub mod Lexer
pub mod Scanner
pub mod Rounds
pub mod Preflight
pub mod Total
pub mod Ends
pub mod Decides
pub mod Identifiers
mod Tests
