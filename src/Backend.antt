-- ===== src/Backend.antt =====
-- The Qwen 3.5 backend (server/src/qwen35/qwen35_backend.cpp and .h): the paged sequence of a request.
pub mod Paged
pub mod TensorNames
pub mod Snapshots
pub mod Residency
pub mod Floor
