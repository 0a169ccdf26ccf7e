-- ===== src/Network/Request.antt =====
-- `handle_request` of src/NetworkInterface.cc on the bytes of a request, however they arrive.
pub mod Reads
pub mod Header
pub mod Body
pub mod Chunks
pub mod Hostile
