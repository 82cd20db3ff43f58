-- ===== src/Peer.antt =====
-- src/rtc/rtc_peer.cpp: one peer connection.
pub mod State
pub mod Connection
pub mod Sdp
pub mod Events
pub mod Silence
pub mod Expiry
pub mod Consistency
pub mod Offers
pub mod Deadline
pub mod Glare
pub mod Ice
pub mod Emission
pub mod Gathering
mod Tests
