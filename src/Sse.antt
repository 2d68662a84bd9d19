-- ===== src/Sse.antt =====
-- The streaming emitter (server/src/server/sse_emitter.cpp and sse_emitter.h).
pub mod Event
pub mod Wire
pub mod Toolkit
pub mod Utf8Tail
pub mod Token
pub mod Reasoning
pub mod Content
pub mod Loop
pub mod Timings
pub mod ThinkClose
pub mod Start
pub mod Final
pub mod Finish
pub mod Session
pub mod Carry
pub mod View
pub mod Blocks
