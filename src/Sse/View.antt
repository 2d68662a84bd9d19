-- ===== src/Sse/View.antt =====
-- What a client puts together from the deltas of a stream, in each format, against the text that
-- the emitter accumulates for the answer that is not streamed (sse_emitter.cpp, 345-370, 421-534,
-- 544-647, 881-904).
pub mod Wire
pub mod Token
pub mod Finish
