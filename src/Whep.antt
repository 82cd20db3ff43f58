-- ===== src/Whep.antt =====
-- src/signaling/whep_service.cpp: WHEP over HTTP. `Target` is the paths of requests, `Sdp` the walks over SDP texts,
-- and `Session` the answer to one request.
pub mod Target
pub mod Sdp
pub mod Session
pub mod Responses
mod Tests
