-- ===== src/Server.antt =====
-- Parts of server/src/server/http_server.cpp: the bytes of a stream, the delivery of generated
-- tokens, the queue of jobs.
pub mod Heartbeat
pub mod Delivery
pub mod Http
pub mod Routing
pub mod Queue
pub mod Prompt
pub mod Budget
pub mod Cache
